-- ===== src/Stability/Keys.antt =====
-- The keys that migrations/001_init.up.sql declares.
pub mod Rows
pub mod Known
pub mod Statements
pub mod Requests
use pr_reviewer_service.Prelude.{
  ◌≤◌, String, ◌≡◌, refl, Bool, true, ◌&&◌, List, arith, ◌==◌, is_some, count_if, all_of,
}
use pr_reviewer_service.Database.Schema.{
  TeamRow, UserRow, PrRow, ReviewerRow, EventRow, Db, has_team, find_user, find_pr, empty_db,
}
use pr_reviewer_service.Integrity.Invariant.{pair_count}

-- A row of a pull request and a user, both of whom are there.
abbrev pub both_known : List PrRow → List UserRow → String → String → Bool
both_known prs users p r = is_some (find_pr p prs) && is_some (find_user r users)

pub record Keyed (teams : List TeamRow) (users : List UserRow) (prs : List PrRow)
    (reviewers : List ReviewerRow) (events : List EventRow) : Type 0 where
  -- primary keys
  pub team_key : (t : String) → count_if (λ x. x.team_name == t) teams ≤ 1
  pub user_key : (u : String) → count_if (λ x. x.user_id == u) users ≤ 1
  pub pr_key : (p : String) → count_if (λ x. x.pull_request_id == p) prs ≤ 1
  pub reviewer_key : (p r : String) → pair_count p r reviewers ≤ 1
  -- foreign keys
  pub user_team : all_of (λ x. has_team x.team_name teams) users ≡ true
  pub pr_author : all_of (λ x. is_some (find_user x.author_id users)) prs ≡ true
  pub reviewer_known :
      all_of (λ x. both_known prs users x.pull_request_id x.reviewer_id) reviewers ≡ true
  pub event_known : all_of (λ x. both_known prs users x.pull_request_id x.reviewer_id) events ≡ true

abbrev pub IsKeyed : Db → Type 0
IsKeyed d = Keyed d.teams d.users d.prs d.reviewers d.events

pub empty-IsKeyed : IsKeyed empty_db
unfolding count_if all_of
empty-IsKeyed = record {
  team_key = λ t. omega arith;
  user_key = λ u. omega arith;
  pr_key = λ p. omega arith;
  reviewer_key = λ p r. omega arith;
  user_team = refl;
  pr_author = refl;
  reviewer_known = refl;
  event_known = refl;
}
