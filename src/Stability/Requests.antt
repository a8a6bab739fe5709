-- ===== src/Stability/Requests.antt =====
-- The handlers of internal/http and lists of requests, for any stable predicate.
use pr_reviewer_service.Prelude.{◌≡◌, List}
use pr_reviewer_service.Database.Schema.{Db}
use pr_reviewer_service.Database.Statements.{
  Outcome, done, refused, insert_team, upsert_user, insert_pr, insert_reviewer, insert_event,
}
use pr_reviewer_service.Repository.Monad.{ok, World, Env, M}
use pr_reviewer_service.Repository.Triple.{Succeeds}
use pr_reviewer_service.Service.Deactivation.{MassDeactivateResult}
use pr_reviewer_service.Http.Response.{Response}
use pr_reviewer_service.Http.Router.{Request, handle, serve_all}
use pr_reviewer_service.Http.Keeping.{ServiceKeeps, answered, serve_all-Keeps}
use pr_reviewer_service.Integrity.Deactivation.{Manages}
use pr_reviewer_service.Stability.{Stable}
use pr_reviewer_service.Stability.Service.{
  service_create_team-Holds, service_get_team-Holds, service_set_user_activity-Holds,
  merge_pull_request-Holds, service_list_review_assignments-Holds, stats-Holds,
  service_create_pull_request-Holds, service_reassign_reviewer-Holds, mass_deactivate-Holds,
}

module _ {I : Db → Type 0} (s : Stable I) (e : Env)
    (do_tx : M MassDeactivateResult → M MassDeactivateResult) (manager : Manages do_tx) where
  service-Holds : ServiceKeeps I e do_tx
  service-Holds = record {
    create_team = service_create_team-Holds s e;
    get_team = service_get_team-Holds s e;
    set_user_activity = service_set_user_activity-Holds s e;
    merge_pull_request = merge_pull_request-Holds s e;
    list_review_assignments = service_list_review_assignments-Holds s e;
    stats = stats-Holds s e;
    create_pull_request = service_create_pull_request-Holds s e;
    reassign_reviewer = service_reassign_reviewer-Holds s e;
    mass_deactivate = mass_deactivate-Holds s e do_tx manager;
  }

  -- A stable predicate holds after any list of requests, if it held before.
  pub serve_all-Holds : (reqs : List Request) (w : World) → I w.db → I (serve_all e do_tx reqs w).db
  serve_all-Holds = serve_all-Keeps service-Holds

-- What every table satisfies is stable.
Stable-Unit : Stable (λ d. Unit {0})
Stable-Unit = record {
  team = λ now t d h. Succeeds-Unit (insert_team now t d);
  user = λ new d h. Succeeds-Unit (upsert_user new d);
  activity = λ chosen active now d h. tt;
  pull_request = λ row d h. Succeeds-Unit (insert_pr row d);
  status = λ p s now d h. tt;
  reviewer = λ now p r d h. Succeeds-Unit (insert_reviewer now p r d);
  removal = λ p r d h. tt;
  event = λ now p r kind source d h. Succeeds-Unit (insert_event now p r kind source d);
}
  where
    Succeeds-Unit : (o : Outcome) → Succeeds (λ d. Unit {0}) o
    Succeeds-Unit (done d) = tt
    Succeeds-Unit (refused x) = tt

-- Every route answers with a response, from any state: no error and no panic leaves the handlers.
pub handle_responds :
    (e : Env) (do_tx : M MassDeactivateResult → M MassDeactivateResult)
    → Manages do_tx
    → (req : Request) (w : World) → (r : Response) × ((handle e do_tx req w).0 ≡ ok r)
handle_responds e do_tx manager req w =
    (answered (service-Holds Stable-Unit e do_tx manager) req w tt).1
