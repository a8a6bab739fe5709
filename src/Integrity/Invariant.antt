-- ===== src/Integrity/Invariant.antt =====
-- The invariant of the tables pull_requests, pull_request_reviewers and review_assignment_events.
use pr_reviewer_service.Prelude.{
  ℕ, ◌+◌, ◌≤◌, String, ◌≡◌, refl, Bool, true, false, ◌&&◌, Option, none, some, List, arith, ◌==◌,
  is_some, count_if,
}
use pr_reviewer_service.Domain.{merged, status_eq}
use pr_reviewer_service.Board.{Card, Board, Reach, here}
use pr_reviewer_service.Picker.{is_blank}
use pr_reviewer_service.Database.Schema.{
  PrRow, ReviewerRow, EventType, assigned, unassigned, EventRow, Db, find_pr, reviews, empty_db,
}

-- How many reviewers a pull request has, and how often one person is among them.
abbrev pub reviewer_count : String → List ReviewerRow → ℕ
reviewer_count p = count_if (λ x. x.pull_request_id == p)

abbrev pub pair_count : String → String → List ReviewerRow → ℕ
pair_count p r = count_if (reviews p r)

abbrev pub kind_eq : EventType → EventType → Bool
kind_eq assigned assigned = true
kind_eq unassigned unassigned = true
kind_eq _ _ = false

abbrev pub logs : EventType → String → String → EventRow → Bool
logs kind p r x = kind_eq x.event_type kind && (x.pull_request_id == p && x.reviewer_id == r)

abbrev pub event_count : EventType → String → String → List EventRow → ℕ
event_count kind p r = count_if (logs kind p r)

pub record Consistent (prs : List PrRow) (reviewers : List ReviewerRow) (events : List EventRow)
    : Type 0 where
  -- Nobody reviews a pull request of their own.
  pub no_self_review :
      (p : String) (row : PrRow)
      → find_pr p prs ≡ some row
      → pair_count p row.author_id reviewers ≡ 0
  pub at_most_two : (p : String) → reviewer_count p reviewers ≤ 2
  pub no_stray : (p : String) → find_pr p prs ≡ none → reviewer_count p reviewers ≡ 0
  pub no_duplicate : (p r : String) → pair_count p r reviewers ≤ 1
  -- The audit log accounts for every reviewer.
  pub logged :
      (p r : String)
      → event_count assigned p r events
        ≡ event_count unassigned p r events + pair_count p r reviewers
  -- A pull request has a merge time just when it is merged.
  pub stamped :
      (p : String) (row : PrRow)
      → find_pr p prs ≡ some row
      → is_some row.merged_at ≡ status_eq row.status merged
  pub author_named :
      (p : String) (row : PrRow) → find_pr p prs ≡ some row → is_blank row.author_id ≡ false

abbrev pub IsConsistent : Db → Type 0
IsConsistent d = Consistent d.prs d.reviewers d.events

-- The rows and reviewers of the pull requests that were merged then are the same now.
pub record Frozen (prs₀ : List PrRow) (reviewers₀ : List ReviewerRow) (prs : List PrRow)
    (reviewers : List ReviewerRow) : Type 0 where
  pub same_row :
      (p : String) (row : PrRow)
      → find_pr p prs₀ ≡ some row
      → row.status ≡ merged
      → find_pr p prs ≡ some row
  pub same_reviewers :
      (p : String) (row : PrRow) (r : String)
      → find_pr p prs₀ ≡ some row
      → row.status ≡ merged
      → pair_count p r reviewers ≡ pair_count p r reviewers₀

abbrev pub MergedFrozen : Db → Db → Type 0
MergedFrozen d₀ d = Frozen d₀.prs d₀.reviewers d.prs d.reviewers

-- The board that the tables show.
abbrev pub card_of : Option PrRow → Option Card
card_of none = none
card_of (some row) =
    some (record { author = row.author_id; is_merged = status_eq row.status merged })

abbrev pub board : List PrRow → List ReviewerRow → Board
board prs reviewers = record {
  card = λ p. card_of (find_pr p prs);
  reviews = λ p r. pair_count p r reviewers;
  total = λ p. reviewer_count p reviewers;
}

abbrev pub view : Db → Board
view d = board d.prs d.reviewers

-- Consistent, what was merged at `d₀` is as it was, and the board is one that `d₀` leads to.
pub record Kept (d₀ : Db) (prs : List PrRow) (reviewers : List ReviewerRow) (events : List EventRow)
    : Type 0 where
  pub consistent : Consistent prs reviewers events
  pub frozen : Frozen d₀.prs d₀.reviewers prs reviewers
  -- The board has changed by steps that are allowed.
  pub reached : Reach (view d₀) (board prs reviewers)

abbrev pub IsKept : Db → Db → Type 0
IsKept d₀ d = Kept d₀ d.prs d.reviewers d.events

pub IsKept-start : (d : Db) → IsConsistent d → IsKept d d
IsKept-start d h = record {
  consistent = h;
  frozen = record { same_row = λ p row e m. e; same_reviewers = λ p row r e m. refl };
  reached = here;
}

pub empty-IsConsistent : IsConsistent empty_db
unfolding count_if find_pr
empty-IsConsistent = record {
  no_self_review = λ p row e. refl;
  at_most_two = λ p. omega arith;
  no_stray = λ p e. refl;
  no_duplicate = λ p r. omega arith;
  logged = λ p r. refl;
  stamped = λ p row e. ground arith;
  author_named = λ p row e. ground arith;
}
