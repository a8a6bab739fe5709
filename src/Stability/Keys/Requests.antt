-- ===== src/Stability/Keys/Requests.antt =====
-- The keys over lists of requests.
use pr_reviewer_service.Prelude.{List}
use pr_reviewer_service.Repository.Monad.{World, Env, M}
use pr_reviewer_service.Service.Deactivation.{MassDeactivateResult}
use pr_reviewer_service.Http.Router.{Request, serve_all}
use pr_reviewer_service.Integrity.Deactivation.{Manages}
use pr_reviewer_service.Stability.{Stable}
use pr_reviewer_service.Stability.Keys.{IsKeyed}
use pr_reviewer_service.Stability.Keys.Statements.{
  insert_team-IsKeyed, upsert_user-IsKeyed, update_activity-IsKeyed, insert_pr-IsKeyed,
  update_status-IsKeyed, insert_reviewer-IsKeyed, delete_reviewer-IsKeyed, insert_event-IsKeyed,
}
use pr_reviewer_service.Stability.Requests.{serve_all-Holds}

pub Stable-IsKeyed : Stable IsKeyed
Stable-IsKeyed = record {
  team = λ now t d k. insert_team-IsKeyed d k now t;
  user = λ new d k. upsert_user-IsKeyed d k new;
  activity = λ chosen active now d k. update_activity-IsKeyed d k chosen active now;
  pull_request = λ row d k. insert_pr-IsKeyed d k row;
  status = λ p s now d k. update_status-IsKeyed d k p s now;
  reviewer = λ now p r d k. insert_reviewer-IsKeyed d k now p r;
  removal = λ p r d k. delete_reviewer-IsKeyed d k p r;
  event = λ now p r kind source d k. insert_event-IsKeyed d k now p r kind source;
}

-- However many requests are served, in whatever order and with whatever failures of the database,
-- the keys of the tables hold if they held before: no team, user, pull request or pair of a pull
-- request and a reviewer stands there twice, and the team of a user, the author of a pull request,
-- and the pull request and the person of a review or of an entry of the log are there.
pub serve_all-IsKeyed :
    (e : Env) (do_tx : M MassDeactivateResult → M MassDeactivateResult)
    → Manages do_tx
    → (reqs : List Request) (w : World) → IsKeyed w.db
    → IsKeyed (serve_all e do_tx reqs w).db
serve_all-IsKeyed e do_tx manager reqs w k = serve_all-Holds Stable-IsKeyed e do_tx manager reqs w k
