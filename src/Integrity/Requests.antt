-- ===== src/Integrity/Requests.antt =====
-- The invariant over the handlers of internal/http, single requests and lists of them.
use pr_reviewer_service.Prelude.{String, ◌≡◌, ap, some, List}
use pr_reviewer_service.Board.{Reach}
use pr_reviewer_service.Board.Laws.{Later, Later-Reach}
use pr_reviewer_service.Domain.{merged, status_eq}
use pr_reviewer_service.Database.Schema.{Db, PrRow, find_pr}
use pr_reviewer_service.Repository.Monad.{World, Env, M}
use pr_reviewer_service.Service.Deactivation.{MassDeactivateResult}
use pr_reviewer_service.Http.Router.{Request, serve_all}
use pr_reviewer_service.Integrity.Invariant.{
  IsConsistent, MergedFrozen, IsKept, IsKept-start, view, card_of,
}
use pr_reviewer_service.Http.Keeping.{ServiceKeeps, serve_all-Keeps}
use pr_reviewer_service.Integrity.Service.{
  service_create_team-Keeps, service_get_team-Keeps, service_set_user_activity-Keeps,
  merge_pull_request-Keeps, service_list_review_assignments-Keeps, stats-Keeps,
}
use pr_reviewer_service.Integrity.Assignment.{
  service_create_pull_request-Keeps, service_reassign_reviewer-Keeps,
}
use pr_reviewer_service.Integrity.Deactivation.{Manages, mass_deactivate-Keeps}

module _ (e : Env) (do_tx : M MassDeactivateResult → M MassDeactivateResult)
    (manager : Manages do_tx) (d₀ : Db) where
  service-Keeps : ServiceKeeps (IsKept d₀) e do_tx
  service-Keeps = record {
    create_team = service_create_team-Keeps e d₀;
    get_team = service_get_team-Keeps e d₀;
    set_user_activity = service_set_user_activity-Keeps e d₀;
    merge_pull_request = merge_pull_request-Keeps e d₀;
    list_review_assignments = service_list_review_assignments-Keeps e d₀;
    stats = stats-Keeps e d₀;
    create_pull_request = service_create_pull_request-Keeps e d₀;
    reassign_reviewer = service_reassign_reviewer-Keeps e d₀;
    mass_deactivate = mass_deactivate-Keeps e d₀ do_tx manager;
  }

  serve_all-IsKept :
      (reqs : List Request) (w : World) → IsKept d₀ w.db → IsKept d₀ (serve_all e do_tx reqs w).db
  serve_all-IsKept = serve_all-Keeps service-Keeps

module _ (e : Env) (do_tx : M MassDeactivateResult → M MassDeactivateResult)
    (manager : Manages do_tx) where
  -- However many requests are served, in whatever order and with whatever failures of the database,
  -- its commits included, tables that are consistent stay so: nobody reviews their own pull request,
  -- a pull request has at most two reviewers and none twice, no reviewer belongs to a pull request
  -- that is not there, the audit log accounts for every reviewer, and a pull request has a merge
  -- time just when it is merged.
  pub serve_all-IsConsistent :
      (reqs : List Request) (w : World)
      → IsConsistent w.db
      → IsConsistent (serve_all e do_tx reqs w).db
  serve_all-IsConsistent reqs w h =
      (serve_all-IsKept e do_tx manager w.db reqs w (IsKept-start w.db h)).consistent

  -- However many requests are served from consistent tables, a pull request that was merged keeps
  -- its row, its merge time with it, and its reviewers.
  pub serve_all-MergedFrozen :
      (reqs : List Request) (w : World)
      → IsConsistent w.db
      → MergedFrozen w.db (serve_all e do_tx reqs w).db
  serve_all-MergedFrozen reqs w h =
      (serve_all-IsKept e do_tx manager w.db reqs w (IsKept-start w.db h)).frozen

  -- Whatever list of requests is served from consistent tables, the board that the tables show changes
  -- by steps of the abstract board alone: opening, joining, leaving and merging, each where the board
  -- allows it.
  pub serve_all-Reach :
      (reqs : List Request) (w : World)
      → IsConsistent w.db
      → Reach (view w.db) (view (serve_all e do_tx reqs w).db)
  serve_all-Reach reqs w h =
      (serve_all-IsKept e do_tx manager w.db reqs w (IsKept-start w.db h)).reached

  -- Once a pull request is there, no list of requests takes it away or changes its author, and one
  -- that is merged stays merged.
  pub serve_all-Later :
      (reqs : List Request) (w : World) (p : String) (row : PrRow)
      → IsConsistent w.db
      → find_pr p w.db.prs ≡ some row
      → Later
          (record { author = row.author_id; is_merged = status_eq row.status merged })
          ((view (serve_all e do_tx reqs w).db).card p)
  serve_all-Later reqs w p row h found =
      Later-Reach p _ (serve_all-Reach reqs w h) (ap card_of found)
