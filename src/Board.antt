-- ===== src/Board.antt =====
-- An abstract review board, which says nothing of tables, transactions or failures: the pull
-- requests with their authors, who reviews what, and the steps by which a board may change.
pub mod Laws
use pr_reviewer_service.Prelude.{
  ℕ, ◌+◌, ◌≤◌, String, ◌≡◌, Bool, false, true, ◌&&◌, Option, none, some, ◌==◌, if◌then◌else◌,
}

pub record Card : Type 0 where
  pub author : String
  pub is_merged : Bool

-- `reviews p r` counts how often `r` reviews `p`, `total p` the reviewers of `p`.
pub record Board : Type 0 where
  pub card : String → Option Card
  pub reviews : String → String → ℕ
  pub total : String → ℕ

pub record SameCards (b b' : Board) : Type 0 where
  pub card : (q : String) → b'.card q ≡ b.card q

pub record SameReviews (b b' : Board) : Type 0 where
  pub reviews : (q s : String) → b'.reviews q s ≡ b.reviews q s
  pub total : (q : String) → b'.total q ≡ b.total q

-- `c` is put at `p`, and no other card changes.
pub record Placed (p : String) (c : Card) (b b' : Board) : Type 0 where
  pub card : (q : String) → b'.card q ≡ (if p == q then some c else b.card q)

-- `r` is one more reviewer of `p`.
pub record Joined (p r : String) (b b' : Board) : Type 0 where
  pub reviews :
      (q s : String) → b'.reviews q s ≡ b.reviews q s + (if p == q && r == s then 1 else 0)
  pub total : (q : String) → b'.total q ≡ b.total q + (if p == q then 1 else 0)

-- `r` no longer reviews `p`.
pub record Left (p r : String) (b b' : Board) : Type 0 where
  pub reviews : (q s : String) → b'.reviews q s ≡ (if p == q && r == s then 0 else b.reviews q s)
  pub total : (q : String) → b'.total q + (if p == q then 1 else 0) ≡ b.total q

-- The steps: a pull request is opened, with no reviewers yet; somebody other than the author joins the
-- reviewers of an open one that has fewer than two and not this one; a reviewer leaves an open one;
-- a pull request is merged.
pub data Step (b b' : Board) : Type 0 where
  opens :
      (p author : String)
      → b.card p ≡ none
      → b.total p ≡ 0
      → ((r : String) → b.reviews p r ≡ 0)
      → Placed p (record { author = author; is_merged = false }) b b'
      → SameReviews b b'
      → Step b b'
  joins :
      (p r : String) (c : Card)
      → b.card p ≡ some c
      → c.is_merged ≡ false
      → (c.author == r) ≡ false
      → b.reviews p r ≡ 0
      → b.total p ≤ 1
      → SameCards b b'
      → Joined p r b b'
      → Step b b'
  leaves :
      (p r : String) (c : Card)
      → b.card p ≡ some c
      → c.is_merged ≡ false
      → b.reviews p r ≡ 1
      → SameCards b b'
      → Left p r b b'
      → Step b b'
  merges :
      (p : String) (c : Card)
      → b.card p ≡ some c
      → Placed p (record c { is_merged = true }) b b'
      → SameReviews b b'
      → Step b b'

-- Any number of steps.
pub data Reach (b : Board) : Board → Type 0 where
  here : Reach b b
  next : {u v : Board} → Reach b u → Step u v → Reach b v
