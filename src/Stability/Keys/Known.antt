-- ===== src/Stability/Keys/Known.antt =====
-- Rows that are found are found after a write, and so foreign keys stay good.
use pr_reviewer_service.Prelude.{
  ℕ, String, ◌≡◌, true, List, ◌∷◌, arith, is_some, any_of, all_of, all_of_mono,
}
use pr_reviewer_service.Database.Schema.{
  TeamRow, UserRow, PrRow, ReviewerRow, EventRow, has_team, find_user, find_pr,
}
use pr_reviewer_service.Stability.Keys.{both_known}

-- Who and what is known stays known.
pub record StayKnown (prs prs' : List PrRow) (users users' : List UserRow) : Type 0 where
  pub pr : (p : String) → is_some (find_pr p prs) ≡ true → is_some (find_pr p prs') ≡ true
  pub user : (u : String) → is_some (find_user u users) ≡ true → is_some (find_user u users') ≡ true

module _ {prs prs' : List PrRow} {users users' : List UserRow}
    (more : StayKnown prs prs' users users') where
  both_known-more :
      (p r : String) → both_known prs users p r ≡ true → both_known prs' users' p r ≡ true
  both_known-more p r h = ground (arith, more.pr p, more.user r)

  pub authors-more :
      (xs : List PrRow)
      → all_of (λ x. is_some (find_user x.author_id users)) xs ≡ true
      → all_of (λ x. is_some (find_user x.author_id users')) xs ≡ true
  authors-more xs = all_of_mono _ _ xs (λ x. more.user x.author_id)

  pub reviewers-more :
      (xs : List ReviewerRow)
      → all_of (λ x. both_known prs users x.pull_request_id x.reviewer_id) xs ≡ true
      → all_of (λ x. both_known prs' users' x.pull_request_id x.reviewer_id) xs ≡ true
  reviewers-more xs = all_of_mono _ _ xs (λ x. both_known-more x.pull_request_id x.reviewer_id)

  pub events-more :
      (xs : List EventRow)
      → all_of (λ x. both_known prs users x.pull_request_id x.reviewer_id) xs ≡ true
      → all_of (λ x. both_known prs' users' x.pull_request_id x.reviewer_id) xs ≡ true
  events-more xs = all_of_mono _ _ xs (λ x. both_known-more x.pull_request_id x.reviewer_id)

pub has_team-more :
    (now : ℕ) (new t : String) (xs : List TeamRow)
    → has_team t xs ≡ true
    → has_team t (record { team_name = new; created_at = now } ∷ xs) ≡ true
unfolding has_team any_of
has_team-more now new t xs h = ground (arith, h)

pub find_pr-more :
    (new : PrRow) (p : String) (xs : List PrRow)
    → is_some (find_pr p xs) ≡ true
    → is_some (find_pr p (new ∷ xs)) ≡ true
unfolding find_pr
find_pr-more new p xs h = ground (arith, h)
