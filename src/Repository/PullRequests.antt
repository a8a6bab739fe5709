-- ===== src/Repository/PullRequests.antt =====
-- The pull request operations of internal/repository/storage.go. The bodies of the transactions
-- are those of `txStorage` in tx_storage.go too, statement by statement.
use pr_reviewer_service.Prelude.{
  ℕ, String, Bool, ◌&&◌, not, none, List, [], ◌∷◌, ◌==◌, is_some, if◌then◌else◌,
}
use pr_reviewer_service.Domain.{
  PrStatus, merged, status_eq, PullRequest, err_pr_exists, err_pr_not_found, err_pr_merged,
  err_reviewer_absent,
}
use pr_reviewer_service.Database.Schema.{PrRow, assigned, unassigned, Db, find_pr, is_reviewer}
use pr_reviewer_service.Database.Statements.{
  Outcome, done, and_then, insert_pr, update_status, insert_reviewer, delete_reviewer, insert_event,
}
use pr_reviewer_service.Database.Queries.{reviewer_ids}
use pr_reviewer_service.Repository.Monad.{
  domain, Env, M, pure, raise_if, on_error, not_found, same_error, query, query_row, exec, ◌>>=◌,
  ◌>>◌,
}
use pr_reviewer_service.Repository.Transaction.{with_tx}

-- The batch of `insertReviewers`.
unfoldable pub reviewers_batch : ℕ → String → List String → String → Db → Outcome
reviewers_batch time p [] source d = done d
reviewers_batch time p (r ∷ rs) source d =
    and_then (insert_reviewer time p r d)
      λ d1. and_then (insert_event time p r assigned source d1) (reviewers_batch time p rs source)

-- The batch of `removeReviewer`.
unfoldable pub removal_batch : ℕ → String → String → String → Db → Outcome
removal_batch time p r source d = insert_event time p r unassigned source (delete_reviewer p r d)

abbrev pub pull_request_of : PrRow → List String → PullRequest
pull_request_of row reviewers = record {
  id = row.pull_request_id;
  name = row.pull_request_name;
  author_id = row.author_id;
  status = row.status;
  assigned_reviewers = reviewers;
  created_at = row.created_at;
  merged_at = row.merged_at;
}

-- The values of `INSERT INTO pull_requests`.
abbrev pub new_row : PullRequest → ℕ → PrRow
new_row pr time = record {
  pull_request_id = pr.id;
  pull_request_name = pr.name;
  author_id = pr.author_id;
  status = pr.status;
  created_at = time;
  merged_at = none;
}

module _ (e : Env) where
  unfoldable pub insert_reviewers : ℕ → String → List String → String → M (Unit {0})
  insert_reviewers time p rs source = exec e (reviewers_batch time p rs source)

  unfoldable pub remove_reviewer : ℕ → String → String → String → M (Unit {0})
  remove_reviewer time p r source = exec e (removal_batch time p r source)

  unfoldable pub get_pull_request : String → M PullRequest
  get_pull_request p = do
    row ← on_error (not_found err_pr_not_found same_error) (query_row e (λ d. find_pr p d.prs))
    reviewers ← query e (λ d. reviewer_ids e.text_le p (e.scan_reviewers d.reviewers))
    pure (pull_request_of row reviewers)

  -- `if len(reviewers) > 0`
  unfoldable pub assign_all : ℕ → String → List String → String → M (Unit {0})
  assign_all time p [] source = pure tt
  assign_all time p (r ∷ rs) source = insert_reviewers time p (r ∷ rs) source

  unfoldable pub create_pull_request_body : PullRequest → List String → ℕ → M (Unit {0})
  create_pull_request_body pr reviewers started = do
    exists ← query e (λ d. is_some (find_pr pr.id d.prs))
    raise_if exists (domain err_pr_exists)
    exec e (insert_pr (new_row pr started))
    assign_all started pr.id reviewers "AUTO_ASSIGN"

  unfoldable pub create_pull_request : PullRequest → List String → M PullRequest
  create_pull_request pr reviewers = do
    with_tx e (create_pull_request_body pr reviewers)
    get_pull_request pr.id

  -- The early return of the idempotent case, and the write on the way to MERGED.
  unfoldable pub stamp_merged : ℕ → String → PrStatus → Bool → M (Unit {0})
  stamp_merged time p status settled =
      if settled
      then pure tt
      else if status_eq status merged
      then exec e (λ d. done (update_status p status time d))
      else pure tt

  unfoldable pub update_pr_status_body : String → PrStatus → ℕ → M (Unit {0})
  update_pr_status_body p status started = do
    row ← on_error (not_found err_pr_not_found same_error) (query_row e (λ d. find_pr p d.prs))
    stamp_merged started p status
        (status_eq row.status status && status_eq status merged && is_some row.merged_at)

  unfoldable pub update_pr_status : String → PrStatus → M PullRequest
  update_pr_status p status = do with_tx e (update_pr_status_body p status); get_pull_request p

  -- `if newReviewer != ""`
  unfoldable pub assign_new : ℕ → String → String → String → M (Unit {0})
  assign_new time p new source =
      if new == "" then pure tt else insert_reviewers time p (new ∷ []) source

  unfoldable pub replace_reviewer_body : String → String → String → String → ℕ → M (Unit {0})
  replace_reviewer_body p old new source started = do
    row ← on_error (not_found err_pr_not_found same_error) (query_row e (λ d. find_pr p d.prs))
    raise_if (status_eq row.status merged) (domain err_pr_merged)
    found ← query e (λ d. is_reviewer p old d.reviewers)
    raise_if (not found) (domain err_reviewer_absent)
    remove_reviewer started p old source
    assign_new started p new source

  unfoldable pub replace_reviewer : String → String → String → String → M (PullRequest × String)
  replace_reviewer p old new source = do
    with_tx e (replace_reviewer_body p old new source)
    pr ← get_pull_request p
    pure (pr, new)
