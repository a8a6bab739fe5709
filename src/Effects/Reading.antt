-- ===== src/Effects/Reading.antt =====
-- What `GetPullRequest` returns, against the tables.
use pr_reviewer_service.Prelude.{
  ◌+◌, String, ◌≡◌, refl, sym, ◌∙◌, ap, Bool, ◌&&◌, some, List, [], ◌∷◌, map, arith, ◌==◌, bit,
  count_if, count, select, count_if-map, count_if-select,
}
use pr_reviewer_service.Domain.{PullRequest}
use pr_reviewer_service.Database.Schema.{PrRow, ReviewerRow, Db, find_pr}
use pr_reviewer_service.Database.Queries.{insert_by, order_by, reviewer_ids}
use pr_reviewer_service.Repository.Monad.{World, Env}
use pr_reviewer_service.Repository.Triple.{Triple, Triple-weaken, After}
use pr_reviewer_service.Repository.PullRequests.{get_pull_request, pull_request_of}
use pr_reviewer_service.Integrity.Invariant.{pair_count}
use pr_reviewer_service.Integrity.Reads.{get_pull_request_reads}

-- Sorting keeps how often a test holds.
module _ {ℓ} {A : Type ℓ} (le : A → A → Bool) (p : A → Bool) where
  count_if-insert_by :
      (x : A) (ys : List A) → count_if p (insert_by le x ys) ≡ bit (p x) + count_if p ys
  unfolding insert_by count_if
  count_if-insert_by x [] = refl
  count_if-insert_by x (y ∷ ys) = ground (arith, count_if-insert_by x ys)

  pub count_if-order_by : (xs : List A) → count_if p (order_by le xs) ≡ count_if p xs
  unfolding order_by count_if
  count_if-order_by [] = refl
  count_if-order_by (x ∷ xs) =
      omega (arith, count_if-insert_by x (order_by le xs), count_if-order_by xs)

pub count-reviewer_ids :
    (e : Env) (p r : String) (rows : List ReviewerRow)
    → count r (reviewer_ids e.text_le p (e.scan_reviewers rows)) ≡ pair_count p r rows
unfolding reviewer_ids
count-reviewer_ids e p r rows =
    let chosen = select (λ x. x.pull_request_id == p) (e.scan_reviewers rows) in
    count_if-order_by e.text_le (λ a. a == r) (map (λ x. x.reviewer_id) chosen)
    ∙ count_if-map (λ a. a == r) (λ x. x.reviewer_id) chosen
    ∙ count_if-select (λ x. x.reviewer_id == r) (λ x. x.pull_request_id == p)
        (e.scan_reviewers rows)
    ∙ e.scan_reviewers_keeps (λ x. x.pull_request_id == p && x.reviewer_id == r) rows

-- `pr` as the tables hold it.
pub record Read (d : Db) (p : String) (pr : PullRequest) : Type 0 where
  pub row : PrRow
  pub found : find_pr p d.prs ≡ some row
  pub fields : pr ≡ pull_request_of row pr.assigned_reviewers
  pub reviewers : (r : String) → count r pr.assigned_reviewers ≡ pair_count p r d.reviewers

pub read_lem :
    (e : Env) (p : String) (d : Db) (pr : PullRequest) (row : PrRow)
    → find_pr p d.prs ≡ some row
    → pr ≡ pull_request_of row (reviewer_ids e.text_le p (e.scan_reviewers d.reviewers))
    → Read d p pr
read_lem e p d pr row found same = record {
  row = row;
  found = found;
  fields = same ∙ ap (λ (x : PullRequest). pull_request_of row x.assigned_reviewers) (sym same);
  reviewers = λ r.
      ap (λ (x : PullRequest). count r x.assigned_reviewers) same
      ∙ count-reviewer_ids e p r d.reviewers;
}

pub get_pull_request_triple :
    (e : Env) (d₀ : Db) (p : String)
    → Triple (λ d. d ≡ d₀) (get_pull_request e p) (λ pr d. (d ≡ d₀) × Read d₀ p pr) (λ d. d ≡ d₀)
get_pull_request_triple e d₀ p =
    Triple-weaken (get_pull_request e p)
      (λ pr d h. (h.0, rw h.0 at (read_lem e p d pr h.1 h.2 h.3)))
      (get_pull_request_reads e (λ d h. h) p)

-- `GetPullRequest` changes nothing, whatever it answers. A pull request that it returns is the row
-- with that id, and its list of reviewers holds each person as often as the table of reviewers pairs
-- the two, in whatever order the rows were met.
pub get_pull_request_outcome :
    (e : Env) (p : String) (w : World)
    → let (r, w') = get_pull_request e p w in
      After (λ pr d. (d ≡ w.db) × Read w.db p pr) (λ d. d ≡ w.db) r w'.db
get_pull_request_outcome e p w = (get_pull_request_triple e w.db p).at w refl
