-- ===== src/Tests/Samples.antt =====
-- A database, tables, requests and users to run the service on.
use pr_reviewer_service.Prelude.{refl, String, true, false, none, some, List, [], ◌∷◌, inl, inr}
use pr_reviewer_service.Domain.{User, opened}
use pr_reviewer_service.Database.Schema.{Db, UserRow, assigned, empty_db}
use pr_reviewer_service.Repository.Monad.{World, Env, M}
use pr_reviewer_service.Service.Deactivation.{MassDeactivateResult}
use pr_reviewer_service.Integrity.Deactivation.{Manages}
use pr_reviewer_service.Http.Response.{ApiTeam}
use pr_reviewer_service.Http.Router.{
  Request, post_team_add, post_pull_request_create, post_pull_request_merge,
  post_pull_request_reassign, post_team_deactivate,
}

-- A database that never fails.
abbrev pub quiet : Env
quiet = record {
  fault = λ n. none;
  lands = λ n. false;
  clock = λ n. n;
  random = λ n. n;
  text_le = λ s t. true;
  sql_text = λ x. "failed";
  iterate = λ xs. xs;
  scan_users = λ xs. xs;
  scan_prs = λ xs. xs;
  scan_reviewers = λ xs. xs;
  scan_users_keeps = λ p xs. refl;
  scan_prs_keeps = λ p xs. refl;
  scan_reviewers_keeps = λ p xs. refl;
  iterate_keeps = λ a xs. refl;
}

-- A manager that runs the closure.
abbrev pub run_through : M MassDeactivateResult → M MassDeactivateResult
run_through m = m

pub run_through-Manages : Manages run_through
run_through-Manages = record { outcome = λ m w. inr (w, refl, refl, inl refl) }

abbrev pub world_of : Db → World
world_of d = record {
  db = d;
  sent = 0;
  drawn = 0;
  metrics = record {
    teams_created = 0;
    users_processed = 0;
    pull_requests_created = 0;
    reassignments = 0;
  };
}

abbrev pub start : World
start = world_of empty_db

abbrev pub team : ApiTeam
team = record {
  team_name = "core";
  members =
      record { user_id = "u1"; username = "Ada"; is_active = true }
      ∷ record { user_id = "u2"; username = "Bo"; is_active = true }
      ∷ record { user_id = "u3"; username = "Cy"; is_active = true }
      ∷ [];
}

abbrev pub day : List Request
day =
    post_team_add (some team)
    ∷ post_pull_request_create (some (record { id = "pr"; name = "first"; author = "u1" }))
    ∷ post_pull_request_reassign (some (record { pr_id = "pr"; old_user_id = "u2" }))
    ∷ post_pull_request_merge (some "pr")
    ∷ post_team_deactivate (some (record { team_name = "core"; user_ids = "u3" ∷ [] }))
    ∷ []

abbrev pub user_row : String → UserRow
user_row u = record {
  user_id = u;
  username = u;
  team_name = "core";
  is_active = true;
  created_at = 0;
  updated_at = 0;
}

-- One open pull request of `u1`, which `u2` reviews.
abbrev pub one_pr : Db
one_pr = record {
  teams = record { team_name = "core"; created_at = 0 } ∷ [];
  users = user_row "u1" ∷ user_row "u2" ∷ user_row "u3" ∷ [];
  prs =
      record {
        pull_request_id = "pr";
        pull_request_name = "first";
        author_id = "u1";
        status = opened;
        created_at = 0;
        merged_at = none;
      }
      ∷ [];
  reviewers = record { pull_request_id = "pr"; reviewer_id = "u2"; assigned_at = 0 } ∷ [];
  events =
      record {
        pull_request_id = "pr";
        reviewer_id = "u2";
        event_type = assigned;
        source = "AUTO_ASSIGN";
        created_at = 0;
      }
      ∷ [];
}

abbrev pub candidates : List User
candidates =
    record { id = "u2"; username = "Bo"; team_name = "core"; is_active = true }
    ∷ record { id = "u3"; username = "Cy"; team_name = "core"; is_active = true }
    ∷ record { id = "u4"; username = "Di"; team_name = "core"; is_active = true }
    ∷ []
