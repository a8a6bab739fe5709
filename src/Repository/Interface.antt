-- ===== src/Repository/Interface.antt =====
-- internal/repository/interfaces.go: the operations that a repository has, the two that there are,
-- `Storage` and `txStorage`, and calls of them.
use pr_reviewer_service.Prelude.{ℕ, String, Bool, List, [], ◌∷◌}
use pr_reviewer_service.Domain.{
  PrStatus, User, Team, PullRequest, PullRequestShort, AssignmentStats,
}
use pr_reviewer_service.Repository.Monad.{Env, M, pure, send, ◌>>=◌}
use pr_reviewer_service.Repository.Teams
use pr_reviewer_service.Repository.Users
use pr_reviewer_service.Repository.PullRequests
use pr_reviewer_service.Repository.Listings
use pr_reviewer_service.Repository.Listings.{Dict}
use pr_reviewer_service.Repository.Tx
use pr_reviewer_service.Repository.Tx.{with_transaction}

pub record TeamRepository : Type 0 where
  pub create_team : Team → M Team
  pub get_team : String → M Team

pub record UserRepository : Type 0 where
  pub set_user_activity : String → Bool → M User
  pub get_user_by_id : String → M User
  pub list_active_team_members : String → List String → M (List User)
  pub deactivate_users : List String → M (List User)

pub record PrRepository : Type 0 where
  pub create_pull_request : PullRequest → List String → M PullRequest
  pub update_pr_status : String → PrStatus → M PullRequest
  pub get_pull_request : String → M PullRequest
  pub replace_reviewer : String → String → String → String → M (PullRequest × String)
  pub list_review_assignments : String → M (List PullRequestShort)
  pub list_open_prs_by_reviewer : List String → M (Dict (List String))

pub record StatsRepository : Type 0 where
  pub fetch_assignment_stats : M AssignmentStats

pub record HealthChecker : Type 0 where
  pub ping : M (Unit {0})

pub record Repository : Type 0 where
  pub teams : TeamRepository
  pub users : UserRepository
  pub prs : PrRepository
  pub stats : StatsRepository

-- `WithTransaction` for a function with a result; the source's function has an error alone.
pub record TransactionalRepository (A : Type 0) : Type 0 where
  pub with_transaction : (Repository → M A) → M A

-- `Storage` as a `Repository`.
abbrev pub storage : Env → Repository
storage e = record {
  teams = record { create_team = Teams.create_team e; get_team = Teams.get_team e };
  users = record {
    set_user_activity = Users.set_user_activity e;
    get_user_by_id = Users.get_user_by_id e;
    list_active_team_members = Users.list_active_team_members e;
    deactivate_users = Users.deactivate_users e;
  };
  prs = record {
    create_pull_request = PullRequests.create_pull_request e;
    update_pr_status = PullRequests.update_pr_status e;
    get_pull_request = PullRequests.get_pull_request e;
    replace_reviewer = PullRequests.replace_reviewer e;
    list_review_assignments = Listings.list_review_assignments e;
    list_open_prs_by_reviewer = Listings.list_open_prs_by_reviewer e;
  };
  stats = record { fetch_assignment_stats = Listings.fetch_assignment_stats e };
}

-- `newTxStorage`: the operations in a transaction that began at `started`.
abbrev pub tx_storage : Env → ℕ → Repository
tx_storage e started = record {
  teams = record { create_team = Tx.create_team e started; get_team = Tx.get_team e };
  users = record {
    set_user_activity = Tx.set_user_activity e started;
    get_user_by_id = Tx.get_user_by_id e;
    list_active_team_members = Tx.list_active_team_members e;
    deactivate_users = Tx.deactivate_users e started;
  };
  prs = record {
    create_pull_request = Tx.create_pull_request e started;
    update_pr_status = Tx.update_pr_status e started;
    get_pull_request = Tx.get_pull_request e;
    replace_reviewer = Tx.replace_reviewer e started;
    list_review_assignments = Tx.list_review_assignments e;
    list_open_prs_by_reviewer = Tx.list_open_prs_by_reviewer e;
  };
  stats = record { fetch_assignment_stats = Tx.fetch_assignment_stats e };
}

-- `Storage` as a `HealthChecker` and as a `TransactionalRepository`.
abbrev pub health_checker : Env → HealthChecker
health_checker e = record { ping = send e }

abbrev pub transactional : {A : Type 0} → Env → TransactionalRepository A
transactional e = record { with_transaction = λ fn. with_transaction e (λ t. fn (tx_storage e t)) }

-- A call of one of the operations, with its arguments.
pub data Call : Type 0 where
  create_team : Team → Call
  get_team : String → Call
  set_user_activity : String → Bool → Call
  get_user_by_id : String → Call
  list_active_team_members : String → List String → Call
  deactivate_users : List String → Call
  create_pull_request : PullRequest → List String → Call
  update_pr_status : String → PrStatus → Call
  get_pull_request : String → Call
  replace_reviewer : String → String → String → String → Call
  list_review_assignments : String → Call
  list_open_prs_by_reviewer : List String → Call
  fetch_assignment_stats : Call

-- What a call returns.
pub data Answer : Type 0 where
  team : Team → Answer
  user : User → Answer
  users : List User → Answer
  pull_request : PullRequest → Answer
  replaced : PullRequest × String → Answer
  short_list : List PullRequestShort → Answer
  open_prs : Dict (List String) → Answer
  statistics : AssignmentStats → Answer

-- A result under its name.
abbrev pub answering : {A : Type 0} → (A → Answer) → M A → M Answer
answering f m = m >>= λ a. pure (f a)

unfoldable pub call : Repository → Call → M Answer
call r (create_team t) = answering team (r.teams.create_team t)
call r (get_team name) = answering team (r.teams.get_team name)
call r (set_user_activity u active) = answering user (r.users.set_user_activity u active)
call r (get_user_by_id u) = answering user (r.users.get_user_by_id u)
call r (list_active_team_members t exclude) =
    answering users (r.users.list_active_team_members t exclude)
call r (deactivate_users ids) = answering users (r.users.deactivate_users ids)
call r (create_pull_request pr reviewers) =
    answering pull_request (r.prs.create_pull_request pr reviewers)
call r (update_pr_status p status) = answering pull_request (r.prs.update_pr_status p status)
call r (get_pull_request p) = answering pull_request (r.prs.get_pull_request p)
call r (replace_reviewer p old new source) =
    answering replaced (r.prs.replace_reviewer p old new source)
call r (list_review_assignments u) = answering short_list (r.prs.list_review_assignments u)
call r (list_open_prs_by_reviewer ids) = answering open_prs (r.prs.list_open_prs_by_reviewer ids)
call r fetch_assignment_stats = answering statistics r.stats.fetch_assignment_stats

-- A function that makes calls one after the other, and stops at the first error.
unfoldable pub calls : List Call → Repository → M (Unit {0})
calls [] r = pure tt
calls (c ∷ cs) r = call r c >>= λ _. calls cs r
