-- ===== src/Service/Basic.antt =====
-- internal/service/service.go: the use cases on teams and users, merging, and the listings. The
-- timeouts of the contexts show up as faults of the calls to the driver.
use pr_reviewer_service.Prelude.{
  ℕ, suc, ◌+◌, String, Bool, Option, none, some, List, [], ◌∷◌, length,
}
use pr_reviewer_service.Domain.{merged, User, Team, PullRequest, PullRequestShort, AssignmentStats}
use pr_reviewer_service.Validation.{validate_team_name, validate_user_id, validate_pr_id}
use pr_reviewer_service.Repository.Monad.{
  invalid, Metrics, Env, M, pure, raise, update_metrics, ◌>>=◌, ◌>>◌,
}
use pr_reviewer_service.Repository.Teams
use pr_reviewer_service.Repository.Users.{get_user_by_id}
use pr_reviewer_service.Repository.Users
use pr_reviewer_service.Repository.PullRequests.{update_pr_status}
use pr_reviewer_service.Repository.Listings
use pr_reviewer_service.Repository.Interface.{health_checker}

-- `if err := Validate...; err != nil { return ..., err }`
abbrev pub check : Option String → M (Unit {0})
check none = pure tt
check (some text) = raise (invalid text)

unfoldable pub check_ids : List String → M (Unit {0})
check_ids [] = pure tt
check_ids (u ∷ us) = check (validate_user_id u) >> check_ids us

unfoldable pub check_members : List User → M (Unit {0})
check_members [] = pure tt
check_members (m ∷ ms) = check (validate_user_id m.id) >> check_members ms

-- `IncTeamsCreated` and `AddUsersProcessed`, which passes over a count of zero.
abbrev pub count_team : ℕ → Metrics → Metrics
count_team n m = record m {
  teams_created = suc m.teams_created;
  users_processed = m.users_processed + n;
}

module _ (e : Env) where
  unfoldable pub create_team : Team → M Team
  create_team team = do
    check (validate_team_name team.name)
    check_members team.members
    created ← Teams.create_team e team
    update_metrics (count_team (length created.members))
    pure created

  unfoldable pub get_team : String → M Team
  get_team name = do check (validate_team_name name); Teams.get_team e name

  unfoldable pub set_user_activity : String → Bool → M User
  set_user_activity user_id active = do
    check (validate_user_id user_id)
    Users.set_user_activity e user_id active

  unfoldable pub merge_pull_request : String → M PullRequest
  merge_pull_request pr_id = do check (validate_pr_id pr_id); update_pr_status e pr_id merged

  unfoldable pub list_review_assignments : String → M (List PullRequestShort)
  list_review_assignments user_id = do
    check (validate_user_id user_id)
    known ← get_user_by_id e user_id
    Listings.list_review_assignments e user_id

  unfoldable pub stats : M AssignmentStats
  stats = Listings.fetch_assignment_stats e

  -- `health.Ping`
  unfoldable pub health_check : M (Unit {0})
  health_check = (health_checker e).ping
