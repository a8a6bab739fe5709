-- ===== src/Integrity/PullRequests.antt =====
-- The operations of internal/repository/storage.go on pull requests keep the invariant, whether they
-- succeed or fail.
use pr_reviewer_service.Prelude.{
  count_if, eq_iff, sym, ◌∙◌, eq_refl, ℕ, ◌≤◌, String, ◌≡◌, refl, Bool, true, false, Option, some,
  none, List, [], ◌∷◌, not, count, length, is_some, arith, ◌==◌,
}
use pr_reviewer_service.Domain.{
  PullRequest, opened, merged, status_eq, err_pr_exists, err_pr_not_found, err_pr_merged,
  err_reviewer_absent,
}
use pr_reviewer_service.Picker.{is_blank}
use pr_reviewer_service.Database.Schema.{PrRow, Db, find_pr, is_reviewer}
use pr_reviewer_service.Database.Statements.{insert_pr}
use pr_reviewer_service.Repository.Monad.{
  domain, Env, raise_if, not_found, same_error, query, ◌>>=◌,
}
use pr_reviewer_service.Repository.Triple.{
  Triple, Triple-pure, Triple-bind, Triple-if, Triple-on_error, Triple-raise_if, Triple-query,
  Triple-query_row, Triple-exec, Triple-weaken, Triple-given, Triple-with_tx, Succeeds,
}
use pr_reviewer_service.Repository.PullRequests.{
  reviewers_batch, removal_batch, new_row, insert_reviewers, remove_reviewer, assign_all,
  create_pull_request_body, create_pull_request, stamp_merged, update_pr_status_body,
  update_pr_status, assign_new, replace_reviewer_body, replace_reviewer, get_pull_request,
}
use pr_reviewer_service.Integrity.Invariant.{IsKept, reviewer_count}
use pr_reviewer_service.Integrity.Batches.{
  Vacant, removal_batch-Vacant, Succeeds-weaken, reviewers_batch-IsKept,
}
use pr_reviewer_service.Integrity.Writes.{insert_pr-IsKept, update_status-IsKept}
use pr_reviewer_service.Integrity.Reads.{get_pull_request_reads}
use pr_reviewer_service.Integrity.Storage.{Anything, Keeps}

-- A pull request as the service hands it over.
pub record IsNew (pr : PullRequest) (reviewers : List String) : Type 0 where
  pub is_open : pr.status ≡ opened
  pub named : is_blank pr.author_id ≡ false
  pub few : length reviewers ≤ 2
  pub others : count pr.author_id reviewers ≡ 0

none_of : {A : Type 0} {o : Option A} → is_some o ≡ false → o ≡ none
none_of {o = none} h = refl
none_of {o = some a} h = cc

count-other : (a b : String) → (a == b) ≡ false → count a (b ∷ []) ≡ 0
unfolding count_if
count-other a b h = ground (arith, eq_iff a b, eq_iff b a)

module _ (e : Env) (d₀ : Db) where
  -- What holds once the row of the new pull request is written.
  record Inserted (pr : PullRequest) (started : ℕ) (d : Db) : Type 0 where
    kept : IsKept d₀ d
    found : find_pr pr.id d.prs ≡ some (new_row pr started)
    no_reviewers : reviewer_count pr.id d.reviewers ≡ 0

  insert_pr-Inserted :
      (pr : PullRequest) (reviewers : List String) (started : ℕ) (d : Db)
      → IsNew pr reviewers
      → IsKept d₀ d
      → is_some (find_pr pr.id d.prs) ≡ false
      → Succeeds (Inserted pr started) (insert_pr (new_row pr started) d)
  unfolding find_pr
  insert_pr-Inserted pr reviewers started d n k fresh =
      let absent : find_pr pr.id d.prs ≡ none = none_of fresh in
      Succeeds-weaken (insert_pr (new_row pr started) d)
        (insert_pr-IsKept d k (new_row pr started) absent n.is_open refl n.named)
        λ d' h. record {
          kept = h.0;
          found = rw h.1 (rw (eq_refl pr.id));
          no_reviewers = rw h.2 (k.consistent.no_stray pr.id absent);
        }

  assign_all-Keeps :
      (pr : PullRequest) (reviewers : List String) (started : ℕ) (source : String)
      → IsNew pr reviewers
      → Triple
          (Inserted pr started)
          (assign_all e started pr.id reviewers source)
          (λ _. IsKept d₀)
          Anything
  unfolding assign_all insert_reviewers
  assign_all-Keeps pr [] started source n = Triple-pure tt (λ d h. h.kept)
  assign_all-Keeps pr (r ∷ rs) started source n =
      Triple-exec e (λ d h. tt) (reviewers_batch started pr.id (r ∷ rs) source)
        λ d h.
          reviewers_batch-IsKept started pr.id source (new_row pr started)
            (ground (arith, n.is_open)) (r ∷ rs) d h.kept h.found
            (omega (arith, h.no_reviewers, n.few)) n.others

  pub create_pull_request-Keeps :
      (pr : PullRequest) (reviewers : List String)
      → IsNew pr reviewers
      → Keeps d₀ (create_pull_request e pr reviewers)
  unfolding create_pull_request create_pull_request_body
  create_pull_request-Keeps pr reviewers n =
      Triple-bind _ _
        (Triple-with_tx {Y = Anything} e _ (λ d k. k) (λ _ d k. k)
          (λ started.
            Triple-bind _ _
              (Triple-query e (λ d k. tt)
                {Q = λ b d. IsKept d₀ d × (b ≡ is_some (find_pr pr.id d.prs))} _ (λ d k. (k, refl)))
              λ exists.
                Triple-bind _ _
                  (Triple-raise_if {Q = λ d. IsKept d₀ d × (is_some (find_pr pr.id d.prs) ≡ false)}
                    exists (domain err_pr_exists) (λ d h. tt) (λ d no h. (h.0, sym h.1 ∙ no)))
                  λ _.
                    Triple-bind _ _
                      (Triple-exec e (λ d h. tt) (insert_pr (new_row pr started))
                        λ d h. insert_pr-Inserted pr reviewers started d n h.0 h.1)
                      λ _. assign_all-Keeps pr reviewers started "AUTO_ASSIGN" n))
        λ _.
          Triple-weaken (get_pull_request e pr.id) (λ a d h. h.0)
            (get_pull_request_reads e (λ d k. k) pr.id)

  -- A pull request that was read.
  abbrev Found : String → PrRow → Db → Type 0
  Found p row d = (find_pr p d.prs ≡ some row) × IsKept d₀ d

  stamp_merged-Keeps :
      (time : ℕ) (p : String) (row : PrRow) (settled : Bool)
      → Triple (Found p row) (stamp_merged e time p merged settled) (λ _. IsKept d₀) Anything
  unfolding stamp_merged
  stamp_merged-Keeps time p row true = Triple-pure tt (λ d h. h.1)
  stamp_merged-Keeps time p row false =
      Triple-exec e (λ d h. tt) _ (λ d h. update_status-IsKept d h.1 p time row h.0)

  -- A merge, which is how the service calls `UpdatePRStatus`.
  pub update_pr_status-Keeps : (p : String) → Keeps d₀ (update_pr_status e p merged)
  unfolding update_pr_status update_pr_status_body
  update_pr_status-Keeps p =
      Triple-bind _ _
        (Triple-with_tx {Y = Anything} e _ (λ d k. k) (λ _ d k. k)
          (λ started.
            Triple-bind _ _
              (Triple-on_error (not_found err_pr_not_found same_error) _ (
                Triple-query_row e (λ d k. tt) {Q = Found p} (λ d. find_pr p d.prs)
                  (λ d row found k. (found, k))))
              λ row. stamp_merged-Keeps started p row _))
        λ _.
          Triple-weaken (get_pull_request e p) (λ a d h. h.0)
            (get_pull_request_reads e (λ d k. k) p)

  -- A replacement keeps the invariant if the new reviewer is not the author of the pull request.
  abbrev pub NotAuthor : String → String → Db → Type 0
  NotAuthor p new d = (row : PrRow) → find_pr p d.prs ≡ some row → (row.author_id == new) ≡ false

  assign_new-Keeps :
      (time : ℕ) (p new source : String) (row : PrRow)
      → status_eq row.status merged ≡ false
      → (row.author_id == new) ≡ false
      → Triple (Vacant d₀ p row) (assign_new e time p new source) (λ _. IsKept d₀) Anything
  unfolding assign_new insert_reviewers
  assign_new-Keeps time p new source row still_open other =
      Triple-if (new == "") _ _ (λ _. Triple-pure tt (λ d v. v.kept))
        λ _.
          Triple-exec e (λ d v. tt) _
            λ d v.
              reviewers_batch-IsKept time p source row still_open (new ∷ []) d v.kept v.found
                (omega (arith, v.room)) (count-other row.author_id new other)

  record Replacing (p new : String) (row : PrRow) (d : Db) : Type 0 where
    kept : IsKept d₀ d
    found : find_pr p d.prs ≡ some row
    other : (row.author_id == new) ≡ false

  -- The state once the checks on the status and on the old reviewer have passed.
  record Checked (p old new : String) (row : PrRow) (d : Db) : Type 0 where
    before : Replacing p new row d
    still_open : status_eq row.status merged ≡ false
    there : is_reviewer p old d.reviewers ≡ true

  abbrev Removed : String → String → PrRow → Db → Type 0
  Removed p new row d =
      ((status_eq row.status merged ≡ false) × ((row.author_id == new) ≡ false)) × Vacant d₀ p row d

  remove_reviewer-Keeps :
      (time : ℕ) (p old new source : String) (row : PrRow)
      → Triple
          (Checked p old new row)
          (remove_reviewer e time p old source)
          (λ _. Removed p new row)
          Anything
  unfolding remove_reviewer
  remove_reviewer-Keeps time p old new source row =
      Triple-exec e (λ d h. tt) _
        λ d h.
          Succeeds-weaken (removal_batch time p old source d)
            (removal_batch-Vacant d time p old source row h.before.kept h.before.found h.still_open
              h.there)
            λ d' v. ((h.still_open, h.before.other), v)

  replace_checked-Keeps :
      (p old new source : String) (started : ℕ) (row : PrRow)
      → Triple
          (λ d. Replacing p new row d × (status_eq row.status merged ≡ false))
          (query e (λ d. is_reviewer p old d.reviewers) >>= λ found.
            raise_if (not found) (domain err_reviewer_absent) >>= λ _.
            remove_reviewer e started p old source >>= λ _. assign_new e started p new source)
          (λ _. IsKept d₀)
          Anything
  replace_checked-Keeps p old new source started row =
      Triple-bind _ _
        (Triple-query e (λ d h. tt)
          {Q = λ b d.
            Replacing p new row d
            × (status_eq row.status merged ≡ false)
            × (b ≡ is_reviewer p old d.reviewers)}
          _ (λ d h. (h.0, h.1, refl)))
        λ found.
          Triple-bind _ _
            (Triple-raise_if {Q = Checked p old new row} (not found) (domain err_reviewer_absent)
              (λ d h. tt)
              (λ d no h. record { before = h.0; still_open = h.1; there = ground (arith, h.2) }))
            λ _. Triple-bind _ _ (remove_reviewer-Keeps started p old new source row) λ _.
              Triple-given (assign_new e started p new source)
                λ h. assign_new-Keeps started p new source row h.0 h.1

  replace_reviewer_body-Keeps :
      (p old new source : String) (started : ℕ)
      → Triple
          (λ d. IsKept d₀ d × NotAuthor p new d)
          (replace_reviewer_body e p old new source started)
          (λ _. IsKept d₀)
          Anything
  unfolding replace_reviewer_body
  replace_reviewer_body-Keeps p old new source started =
      Triple-bind _ _
        (Triple-on_error (not_found err_pr_not_found same_error) _ (
          Triple-query_row e (λ d k. tt) {Q = Replacing p new} (λ d. find_pr p d.prs)
            (λ d row found h. record { kept = h.0; found = found; other = h.1 row found })))
        λ row.
          Triple-bind _ _
            (Triple-raise_if
              {Q = λ d. Replacing p new row d × (status_eq row.status merged ≡ false)}
              (status_eq row.status merged) (domain err_pr_merged) (λ d h. tt)
              (λ d still_open h. (h, still_open)))
            λ _. replace_checked-Keeps p old new source started row

  pub replace_reviewer-Keeps :
      (p old new source : String)
      → Triple
          (λ d. IsKept d₀ d × NotAuthor p new d)
          (replace_reviewer e p old new source)
          (λ _. IsKept d₀)
          (IsKept d₀)
  unfolding replace_reviewer
  replace_reviewer-Keeps p old new source =
      Triple-bind _ _
        (Triple-with_tx {Y = Anything} e _ (λ d k. k.0) (λ _ d k. k)
          (replace_reviewer_body-Keeps p old new source))
        λ _.
          Triple-bind _ _
            (Triple-weaken (get_pull_request e p) (λ a d h. h.0)
              (get_pull_request_reads e (λ d k. k) p))
            λ pr. Triple-pure _ (λ d k. k)
