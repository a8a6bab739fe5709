-- ===== src/Tests/Tables.antt =====
-- The theorems on the tables and on mass deactivation, on small tables.
use pr_reviewer_service.Prelude.{refl, List, [], ◌∷◌}
use pr_reviewer_service.Domain.{merged}
use pr_reviewer_service.Repository.Monad.{World, Env}
use pr_reviewer_service.Repository.Triple.{After}
use pr_reviewer_service.Service.Deactivation.{MassDeactivateInput, mass_deactivate}
use pr_reviewer_service.Http.Router.{serve_all}
use pr_reviewer_service.Stability.Keys.{IsKeyed, empty-IsKeyed}
use pr_reviewer_service.Stability.Keys.Requests.{serve_all-IsKeyed}
use pr_reviewer_service.Stability.History.{Extends}
use pr_reviewer_service.Stability.History.Requests.{serve_all-Extends}
use pr_reviewer_service.Effects.MassDeactivate.{Succeeded, Failed, mass_deactivate_outcome}
use pr_reviewer_service.Repository.Interface.{
  Call, calls, transactional, get_team, update_pr_status,
}
use pr_reviewer_service.Stability.Calls.{with_transaction-Keeps}
use pr_reviewer_service.Equivalence.{Steady}
use pr_reviewer_service.Equivalence.Repositories.{Alike, storage-Alike}
use pr_reviewer_service.Tests.{
  quiet, run_through, run_through-Manages, world_of, start, day, one_pr,
}

serve_all-IsKeyed_example : IsKeyed (serve_all quiet run_through day start).db
serve_all-IsKeyed_example =
    serve_all-IsKeyed quiet run_through run_through-Manages day start empty-IsKeyed

serve_all-Extends_example : Extends one_pr (serve_all quiet run_through day (world_of one_pr)).db
serve_all-Extends_example =
    serve_all-Extends quiet run_through run_through-Manages day (world_of one_pr)

abbrev leaving : MassDeactivateInput
leaving = record { team_name = "core"; user_ids = "u2" ∷ [] }

mass_deactivate_outcome_example :
    let (r, w') = mass_deactivate quiet run_through leaving (world_of one_pr) in
    After (Succeeded one_pr leaving) (Failed one_pr leaving) r w'.db
mass_deactivate_outcome_example =
    mass_deactivate_outcome quiet run_through run_through-Manages leaving (world_of one_pr)

abbrev two_calls : List Call
two_calls = get_team "core" ∷ update_pr_status "pr" merged ∷ []

abbrev evening : World
evening = serve_all quiet run_through day start

with_transaction-Keeps_example :
    let d = ((transactional quiet).with_transaction (calls two_calls) evening).1.db in
    IsKeyed d × Extends evening.db d
with_transaction-Keeps_example =
    with_transaction-Keeps quiet two_calls evening
      (serve_all-IsKeyed quiet run_through run_through-Manages day start empty-IsKeyed)

-- An environment in which the time does not pass.
abbrev noon : Env
noon = record quiet { clock = λ n. 12 }

noon-Steady : Steady noon 12
noon-Steady = record { calm = λ n. refl; time = λ n. refl }

storage-Alike_example : Alike noon
storage-Alike_example = storage-Alike noon 12 noon-Steady
