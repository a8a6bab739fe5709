-- ===== src/Tests/Requests.antt =====
-- Opening a pull request after the day's team was added.
use pr_reviewer_service.Prelude.{refl, some, true, List, [], ◌∷◌, any_of, select}
use pr_reviewer_service.Validation.{
  validate_pr_id, validate_pr_name, validate_user_id, validate_team_name,
}
use pr_reviewer_service.Database.Schema.{find_user, find_pr, has_team}
use pr_reviewer_service.Database.Statements.{insert_team, upsert_user, upsert_row}
use pr_reviewer_service.Database.Queries.{team_members}
use pr_reviewer_service.Repository.Monad.{World, send, query, exec, on_error, to_sql, ◌>>=◌}
use pr_reviewer_service.Repository.Transaction.{with_tx}
use pr_reviewer_service.Repository.Teams
use pr_reviewer_service.Service.Basic
use pr_reviewer_service.Http.Response.{with_error_handling, panic_middleware}
use pr_reviewer_service.Http.Mapper.{to_domain_team}
use pr_reviewer_service.Http.Handlers.{CreateRequest, add_team}
use pr_reviewer_service.Http.Router.{
  Request, post_team_add, post_pull_request_create, handle, serve, serve_all,
}
use pr_reviewer_service.Integrity.Invariant.{empty-IsConsistent}
use pr_reviewer_service.Stability.Keys.{empty-IsKeyed}
use pr_reviewer_service.Effects.Returns.Requests.{Openable, Opened, served_create_returns}
use pr_reviewer_service.Tests.{quiet, run_through, run_through-Manages, start, team}

abbrev morning : List Request
morning = post_team_add (some team) ∷ []

abbrev begun : World
begun = serve_all quiet run_through morning start

abbrev opening : CreateRequest
opening = record { id = "pr"; name = "first"; author = "u1" }

opening-Openable : Openable opening begun.db
unfolding serve_all serve handle add_team with_error_handling panic_middleware to_domain_team
    Basic.create_team Basic.check_members Teams.create_team Teams.create_team_body
    Teams.upsert_members with_tx send query exec to_sql on_error ◌>>=◌ has_team insert_team
    upsert_user upsert_row any_of find_user find_pr validate_pr_id validate_pr_name validate_user_id
    validate_team_name Teams.get_team Teams.scan_members Teams.check_team team_members select
opening-Openable = record {
  id_accepted = refl;
  name_accepted = refl;
  author_accepted = refl;
  row = record {
    user_id = "u1";
    username = "Ada";
    team_name = "core";
    is_active = true;
    created_at = 5;
    updated_at = 5;
  };
  known = refl;
  fresh = refl;
}

served_create_returns_example :
    Opened opening begun.db
      (handle quiet run_through (post_pull_request_create (some opening)) begun)
served_create_returns_example =
    served_create_returns quiet quiet run_through run_through-Manages (λ n. refl) morning start
      opening empty-IsConsistent empty-IsKeyed opening-Openable
