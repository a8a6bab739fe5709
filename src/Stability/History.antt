-- ===== src/Stability/History.antt =====
-- What no request takes back: the rows of teams and of the audit log, and parts of the rows of users
-- and pull requests.
pub mod Rows
pub mod Requests
use pr_reviewer_service.Prelude.{ℕ, String, ◌≡◌, some, List, ◌++◌}
use pr_reviewer_service.Database.Schema.{TeamRow, UserRow, PrRow, EventRow, Db, find_user, find_pr}

-- What a row of a pull request keeps.
pub record Revised (old new : PrRow) : Type 0 where
  pub name : new.pull_request_name ≡ old.pull_request_name
  pub author : new.author_id ≡ old.author_id
  pub created_at : new.created_at ≡ old.created_at
  pub merge_time : (t : ℕ) → old.merged_at ≡ some t → new.merged_at ≡ some t

-- A user who was there is there, and was added at the same time.
abbrev pub KeepsUsers : List UserRow → List UserRow → Type 0
KeepsUsers xs ys =
    (u : String) (row : UserRow)
    → find_user u xs ≡ some row
    → (now : UserRow) × (find_user u ys ≡ some now) × (now.created_at ≡ row.created_at)

abbrev pub KeepsPrs : List PrRow → List PrRow → Type 0
KeepsPrs xs ys =
    (p : String) (row : PrRow)
    → find_pr p xs ≡ some row
    → (now : PrRow) × (find_pr p ys ≡ some now) × Revised row now

pub record Extends (d₀ d : Db) : Type 0 where
  pub teams : (added : List TeamRow) × (d.teams ≡ added ++ d₀.teams)
  pub users : KeepsUsers d₀.users d.users
  pub prs : KeepsPrs d₀.prs d.prs
  pub events : (added : List EventRow) × (d.events ≡ added ++ d₀.events)
