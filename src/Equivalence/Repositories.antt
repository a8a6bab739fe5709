-- ===== src/Equivalence/Repositories.antt =====
-- The two implementations of the interface in internal/repository/interfaces.go, side by side.
use pr_reviewer_service.Prelude.{ℕ, String, Bool, List}
use pr_reviewer_service.Domain.{PrStatus, Team, PullRequest}
use pr_reviewer_service.Repository.Monad.{Env}
use pr_reviewer_service.Repository.Interface.{storage, transactional}
use pr_reviewer_service.Equivalence.{Steady, Same}
use pr_reviewer_service.Equivalence.Reads.{
  read_team-Same, read_user-Same, read_pull_request-Same, list_active_team_members-Same,
  list_review_assignments-Same, list_open_prs_by_reviewer-Same, fetch_assignment_stats-Same,
}
use pr_reviewer_service.Equivalence.Writes.{
  deactivate_users-Same, create_pull_request-Same, update_pr_status-Same, replace_reviewer-Same,
}
use pr_reviewer_service.Equivalence.People.{set_user_activity-Same}
use pr_reviewer_service.Equivalence.Teams.{create_team-Same}

-- Each operation of the interface does the same on `Storage` and in a transaction of its own.
pub record Alike (e : Env) : Type 0 where
  pub create_team :
      (team : Team)
      → Same
          ((storage e).teams.create_team team)
          ((transactional e).with_transaction (λ r. r.teams.create_team team))
  pub get_team :
      (name : String)
      → Same
          ((storage e).teams.get_team name)
          ((transactional e).with_transaction (λ r. r.teams.get_team name))
  pub set_user_activity :
      (u : String) (active : Bool)
      → Same
          ((storage e).users.set_user_activity u active)
          ((transactional e).with_transaction (λ r. r.users.set_user_activity u active))
  pub get_user_by_id :
      (u : String)
      → Same
          ((storage e).users.get_user_by_id u)
          ((transactional e).with_transaction (λ r. r.users.get_user_by_id u))
  pub list_active_team_members :
      (name : String) (exclude : List String)
      → Same
          ((storage e).users.list_active_team_members name exclude)
          ((transactional e).with_transaction (λ r. r.users.list_active_team_members name exclude))
  pub deactivate_users :
      (ids : List String)
      → Same
          ((storage e).users.deactivate_users ids)
          ((transactional e).with_transaction (λ r. r.users.deactivate_users ids))
  pub create_pull_request :
      (pr : PullRequest) (reviewers : List String)
      → Same
          ((storage e).prs.create_pull_request pr reviewers)
          ((transactional e).with_transaction (λ r. r.prs.create_pull_request pr reviewers))
  pub update_pr_status :
      (p : String) (status : PrStatus)
      → Same
          ((storage e).prs.update_pr_status p status)
          ((transactional e).with_transaction (λ r. r.prs.update_pr_status p status))
  pub get_pull_request :
      (p : String)
      → Same
          ((storage e).prs.get_pull_request p)
          ((transactional e).with_transaction (λ r. r.prs.get_pull_request p))
  pub replace_reviewer :
      (p old new source : String)
      → Same
          ((storage e).prs.replace_reviewer p old new source)
          ((transactional e).with_transaction (λ r. r.prs.replace_reviewer p old new source))
  pub list_review_assignments :
      (u : String)
      → Same
          ((storage e).prs.list_review_assignments u)
          ((transactional e).with_transaction (λ r. r.prs.list_review_assignments u))
  pub list_open_prs_by_reviewer :
      (ids : List String)
      → Same
          ((storage e).prs.list_open_prs_by_reviewer ids)
          ((transactional e).with_transaction (λ r. r.prs.list_open_prs_by_reviewer ids))
  pub fetch_assignment_stats :
      Same
        (storage e).stats.fetch_assignment_stats
        ((transactional e).with_transaction (λ r. r.stats.fetch_assignment_stats))

-- Where no call to the driver fails and the clock stands still, each operation of the interface
-- comes, on `Storage` and on the `txStorage` of a transaction of its own, from the same tables to
-- the same tables, with the same result, or with errors on both that are the same error of the
-- domain or both none.
pub storage-Alike : (e : Env) (t : ℕ) → Steady e t → Alike e
storage-Alike e t steady = record {
  create_team = create_team-Same e t steady;
  get_team = read_team-Same e t steady;
  set_user_activity = set_user_activity-Same e t steady;
  get_user_by_id = read_user-Same e t steady;
  list_active_team_members = list_active_team_members-Same e t steady;
  deactivate_users = deactivate_users-Same e t steady;
  create_pull_request = create_pull_request-Same e t steady;
  update_pr_status = update_pr_status-Same e t steady;
  get_pull_request = read_pull_request-Same e t steady;
  replace_reviewer = replace_reviewer-Same e t steady;
  list_review_assignments = list_review_assignments-Same e t steady;
  list_open_prs_by_reviewer = list_open_prs_by_reviewer-Same e t steady;
  fetch_assignment_stats = fetch_assignment_stats-Same e t steady;
}
