-- ===== src/Tests/Reassign.antt =====
-- A reassignment on small tables.
use pr_reviewer_service.Prelude.{
  String, ◌≡◌, refl, ap, true, false, none, some, arith, ◌==◌, eq_iff, Bool-cases, inl, inr,
  count_if, any_of,
}
use pr_reviewer_service.Domain.{PullRequest}
use pr_reviewer_service.Validation.{validate_user_id}
use pr_reviewer_service.Picker.{is_blank}
use pr_reviewer_service.Database.Schema.{PrRow, find_pr, find_user, is_reviewer}
use pr_reviewer_service.Repository.Monad.{ok}
use pr_reviewer_service.Service.Assignment.{reassign_reviewer}
use pr_reviewer_service.Integrity.Invariant.{IsConsistent}
use pr_reviewer_service.Effects.Reading.{Read}
use pr_reviewer_service.Effects.Reassign.{Reassigned}
use pr_reviewer_service.Effects.Returns.Replace.{Reassignable, NamedUsers}
use pr_reviewer_service.Effects.Returns.Reassign.{reassign_reviewer_returns}
use pr_reviewer_service.Tests.{quiet, world_of, one_pr, first_row, user_row, pr_is_valid}

only_row : (p : String) (row : PrRow) → find_pr p one_pr.prs ≡ some row → first_row ≡ row
unfolding find_pr
only_row p row e = elim (Bool-cases ("pr" == p)) [
  | inl c ↦ ground (arith, rw c at e)
  | inr c ↦ absurd (ground (arith, rw c at e))
]

author_is_named : is_blank "u1" ≡ false
unfolding is_blank
author_is_named = refl

one_pr-IsConsistent : IsConsistent one_pr
unfolding count_if find_pr
one_pr-IsConsistent = record {
  no_self_review = λ p row e. rw⁻¹ (only_row p row e) (ground arith);
  at_most_two = λ p. ground arith;
  no_stray = λ p e. ground (arith, e);
  no_duplicate = λ p r. ground arith;
  logged = λ p r. ground arith;
  stamped = λ p row e. ground (arith, e);
  author_named = λ p row e. rw⁻¹ (only_row p row e) author_is_named;
}

one_pr-Reassignable : Reassignable "pr" "u2" one_pr
unfolding find_pr find_user is_reviewer any_of count_if
one_pr-Reassignable = record {
  row = first_row;
  found = refl;
  is_open = refl;
  old_row = user_row "u2";
  old_known = refl;
  is_reviewing = refl;
  somebody = omega arith;
}

other_than_blank : (a u : String) → is_blank a ≡ false → is_blank u ≡ true → (a == u) ≡ false
other_than_blank a u h k = elim (Bool-cases (a == u)) [
  | inr o ↦ o
  | inl y ↦
      let same : is_blank a ≡ is_blank u = ap is_blank ((eq_iff a u).0 y) in
      absurd (ground (arith, h, k, same))
]

one_pr-NamedUsers : NamedUsers one_pr
unfolding count_if is_blank
one_pr-NamedUsers u k = ground (
  arith,
  other_than_blank "u1" u refl k,
  other_than_blank "u2" u refl k,
  other_than_blank "u3" u refl k,
)

old_is_valid : validate_user_id "u2" ≡ none
unfolding validate_user_id
old_is_valid = refl

reassign_reviewer_returns_example :
    (res : PullRequest × String) × ((reassign_reviewer quiet "pr" "u2" (world_of one_pr)).0
      ≡ ok res)
    × Reassigned one_pr "pr" "u2" res.1 (reassign_reviewer quiet "pr" "u2" (world_of one_pr)).1.db
    × Read (reassign_reviewer quiet "pr" "u2" (world_of one_pr)).1.db "pr" res.0
reassign_reviewer_returns_example =
    reassign_reviewer_returns quiet (λ n. refl) "pr" "u2" (world_of one_pr) pr_is_valid old_is_valid
      one_pr-Reassignable one_pr-NamedUsers one_pr-IsConsistent
