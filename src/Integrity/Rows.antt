-- ===== src/Integrity/Rows.antt =====
-- How the counts and the lookups move when one row is written or deleted.
use pr_reviewer_service.Prelude.{
  ℕ, ◌+◌, ◌≤◌, ◌<◌, String, ◌≡◌, refl, true, false, ◌&&◌, not, Option, none, some, List, [], ◌∷◌,
  map, arith, ◌==◌, eq_iff, count_if, any_of, select, any_of-count, if◌then◌else◌,
}
use pr_reviewer_service.Domain.{PrStatus}
use pr_reviewer_service.Database.Schema.{PrRow, ReviewerRow, find_pr, reviews, is_reviewer}
use pr_reviewer_service.Database.Statements.{with_status}
use pr_reviewer_service.Integrity.Invariant.{reviewer_count, pair_count}

-- A person among the reviewers counts, and one who is not does not.
pub is_reviewer-count :
    (p r : String) (rows : List ReviewerRow) → is_reviewer p r rows ≡ true → 0 < pair_count p r rows
unfolding is_reviewer
is_reviewer-count p r rows h = any_of-count (reviews p r) rows h

pub not-is_reviewer-count :
    (p r : String) (rows : List ReviewerRow)
    → is_reviewer p r rows ≡ false
    → pair_count p r rows ≡ 0
unfolding is_reviewer any_of count_if
not-is_reviewer-count p r [] h = refl
not-is_reviewer-count p r (x ∷ rows) h = ground (arith, not-is_reviewer-count p r rows)

pub pair-le-reviewer_count :
    (p r : String) (rows : List ReviewerRow) → pair_count p r rows ≤ reviewer_count p rows
unfolding count_if
pair-le-reviewer_count p r [] = omega arith
pair-le-reviewer_count p r (x ∷ rows) = ground (arith, pair-le-reviewer_count p r rows)

abbrev pub without : String → String → List ReviewerRow → List ReviewerRow
without p r = select (λ x. not (reviews p r x))

pub pair_count-without :
    (p r q s : String) (rows : List ReviewerRow)
    → pair_count q s (without p r rows) ≡ (if p == q && r == s then 0 else pair_count q s rows)
unfolding count_if select
pair_count-without p r q s [] = ground arith
pair_count-without p r q s (x ∷ rows) = ground (
  arith,
  pair_count-without p r q s rows,
  eq_iff x.pull_request_id p,
  eq_iff x.pull_request_id q,
  eq_iff x.reviewer_id r,
  eq_iff x.reviewer_id s,
  eq_iff p q,
  eq_iff r s,
)

pub reviewer_count-without :
    (p r q : String) (rows : List ReviewerRow)
    → reviewer_count q (without p r rows) + (if p == q then pair_count p r rows else 0)
      ≡ reviewer_count q rows
unfolding count_if select
reviewer_count-without p r q [] = ground arith
reviewer_count-without p r q (x ∷ rows) = ground (
  arith,
  reviewer_count-without p r q rows,
  eq_iff x.pull_request_id p,
  eq_iff x.pull_request_id q,
  eq_iff p q,
)

abbrev pub status_written : String → PrStatus → ℕ → PrRow → PrRow
status_written p s now x = if x.pull_request_id == p then with_status s now x else x

pub find_pr-id :
    (p : String) (rows : List PrRow) (row : PrRow)
    → find_pr p rows ≡ some row
    → row.pull_request_id ≡ p
unfolding find_pr
find_pr-id p [] row h = ground arith
find_pr-id p (x ∷ rows) row h = ground (arith, eq_iff x.pull_request_id p, find_pr-id p rows row)

-- The row of `q` after the UPDATE of `p`.
abbrev pub rewritten : String → String → PrStatus → ℕ → Option PrRow → Option PrRow
rewritten p q s now none = none
rewritten p q s now (some row) = some (if p == q then with_status s now row else row)

pub find_pr-status_written :
    (p q : String) (s : PrStatus) (now : ℕ) (rows : List PrRow)
    → find_pr q (map (status_written p s now) rows) ≡ rewritten p q s now (find_pr q rows)
unfolding find_pr
find_pr-status_written p q s now [] = refl
find_pr-status_written p q s now (x ∷ rows) = ground (
  arith,
  find_pr-status_written p q s now rows,
  eq_iff x.pull_request_id p,
  eq_iff x.pull_request_id q,
  eq_iff p q,
)
