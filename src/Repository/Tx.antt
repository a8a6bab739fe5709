-- ===== src/Repository/Tx.antt =====
-- `txStorage` of internal/repository/tx_storage.go: the operations inside a transaction that began
-- at `started`, with errors passed on as they come; and `Storage.WithTransaction`, which hands such
-- operations to a function.
use pr_reviewer_service.Prelude.{ℕ, String, Bool, false, not, List, [], ◌∷◌, str_mem}
use pr_reviewer_service.Domain.{
  PrStatus, User, Team, PullRequest, PullRequestShort, AssignmentStats, err_team_exists,
  err_team_not_found, err_user_not_found,
}
use pr_reviewer_service.Database.Schema.{has_team}
use pr_reviewer_service.Database.Statements.{done, insert_team, upsert_user, update_activity}
use pr_reviewer_service.Database.Queries.{team_members, users_in}
use pr_reviewer_service.Repository.Monad.{
  domain, Env, M, pure, raise_if, on_error, not_found, same_error, query, query_row, exec, ◌>>=◌,
  ◌>>◌,
}
use pr_reviewer_service.Repository.Transaction.{with_tx}
use pr_reviewer_service.Repository.Teams.{member_row}
use pr_reviewer_service.Repository.Users
use pr_reviewer_service.Repository.Users.{read_user, update_user_activity}
use pr_reviewer_service.Repository.PullRequests
use pr_reviewer_service.Repository.PullRequests.{
  create_pull_request_body, update_pr_status_body, replace_reviewer_body,
}
use pr_reviewer_service.Repository.Listings
use pr_reviewer_service.Repository.Listings.{Dict}

module _ (e : Env) where
  -- The existence check is made only where no member was read.
  unfoldable pub check_team : String → List User → M (Unit {0})
  check_team t [] = do
    found ← query e (λ d. has_team t d.teams)
    raise_if (not found) (domain err_team_not_found)
  check_team t (m ∷ ms) = pure tt

  unfoldable pub get_team : String → M Team
  get_team t = do
    members ← query e (λ d. team_members e.text_le t (e.scan_users d.users))
    check_team t members
    pure (record { name = t; members = members })

  unfoldable pub upsert_members : String → ℕ → List User → M (Unit {0})
  upsert_members t time [] = pure tt
  upsert_members t time (m ∷ ms) = do
    exec e (upsert_user (member_row t time m))
    upsert_members t time ms

  unfoldable pub create_team : ℕ → Team → M Team
  create_team started team = do
    exists ← query e (λ d. has_team team.name d.teams)
    raise_if exists (domain err_team_exists)
    exec e (insert_team started team.name)
    upsert_members team.name started team.members
    get_team team.name

  unfoldable pub get_user_by_id : String → M User
  get_user_by_id u = on_error (not_found err_user_not_found same_error) (query_row e (read_user u))

  unfoldable pub set_user_activity : ℕ → String → Bool → M User
  set_user_activity started u active = do
    affected ← update_user_activity e u active started
    raise_if (not affected) (domain err_user_not_found)
    get_user_by_id u

  unfoldable pub list_active_team_members : String → List String → M (List User)
  list_active_team_members = Users.list_active_team_members e

  unfoldable pub deactivate_users : ℕ → List String → M (List User)
  deactivate_users started [] = pure []
  deactivate_users started (i ∷ is) = do
    exec e (λ d. done (update_activity (λ x. str_mem x (i ∷ is)) false started d))
    query e (λ d. users_in (i ∷ is) (e.scan_users d.users))

  -- The three operations on pull requests send what the bodies of `Storage` send, and read the
  -- result inside the transaction.
  unfoldable pub create_pull_request : ℕ → PullRequest → List String → M PullRequest
  create_pull_request started pr reviewers = do
    create_pull_request_body e pr reviewers started
    PullRequests.get_pull_request e pr.id

  unfoldable pub get_pull_request : String → M PullRequest
  get_pull_request = PullRequests.get_pull_request e

  unfoldable pub update_pr_status : ℕ → String → PrStatus → M PullRequest
  update_pr_status started p status = do
    update_pr_status_body e p status started
    get_pull_request p

  unfoldable pub replace_reviewer : ℕ → String → String → String → String → M (PullRequest × String)
  replace_reviewer started p old new source = do
    replace_reviewer_body e p old new source started
    pr ← get_pull_request p
    pure (pr, new)

  unfoldable pub list_review_assignments : String → M (List PullRequestShort)
  list_review_assignments = Listings.list_review_assignments e

  unfoldable pub list_open_prs_by_reviewer : List String → M (Dict (List String))
  list_open_prs_by_reviewer = Listings.list_open_prs_by_reviewer e

  unfoldable pub fetch_assignment_stats : M AssignmentStats
  fetch_assignment_stats = Listings.fetch_assignment_stats e

  -- `WithTransaction`: what the function does with the operations above, in one transaction.
  unfoldable pub with_transaction : {A : Type 0} → (ℕ → M A) → M A
  with_transaction fn = with_tx e fn
