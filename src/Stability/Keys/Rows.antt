-- ===== src/Stability/Keys/Rows.antt =====
-- How finding and counting by a key move under the writes of storage.go.
use pr_reviewer_service.Prelude.{
  ◌+◌, String, ◌≡◌, refl, Bool, true, false, ◌&&◌, ◌||◌, List, [], ◌∷◌, map, arith, ◌==◌, eq_iff,
  is_some, bit, count_if, any_of, all_of, not, Bool-cases, inl, inr,
}
use pr_reviewer_service.Database.Schema.{TeamRow, UserRow, PrRow, has_team, find_user, find_pr}
use pr_reviewer_service.Database.Statements.{overwrite, upsert_row}

-- What is not found does not count.
pub has_team-counted :
    (t : String) (xs : List TeamRow)
    → has_team t xs ≡ false
    → count_if (λ x. x.team_name == t) xs ≡ 0
unfolding has_team any_of count_if
has_team-counted t [] h = refl
has_team-counted t (x ∷ xs) h = ground (arith, has_team-counted t xs)

pub find_pr-counted :
    (p : String) (xs : List PrRow)
    → is_some (find_pr p xs) ≡ false
    → count_if (λ x. x.pull_request_id == p) xs ≡ 0
unfolding find_pr count_if
find_pr-counted p [] h = refl
find_pr-counted p (x ∷ xs) h = elim (Bool-cases (x.pull_request_id == p)) [
  | inl c ↦ absurd (ground (arith, rw c at h))
  | inr c ↦ let rest = find_pr-counted p xs (rw c at h) in rw c (omega (arith, rest))
]

-- The users after the upsert, and after an update that keeps their ids.
pub find_user-upsert_row :
    (u : String) (new : UserRow) (xs : List UserRow)
    → is_some (find_user u (upsert_row new xs)) ≡ (is_some (find_user u xs) || (new.user_id == u))
unfolding find_user upsert_row overwrite
find_user-upsert_row u new [] = ground arith
find_user-upsert_row u new (x ∷ xs) = ground (
  arith,
  find_user-upsert_row u new xs,
  eq_iff x.user_id new.user_id,
  eq_iff x.user_id u,
  eq_iff new.user_id u,
)

pub count_if-upsert_row :
    (u : String) (new : UserRow) (xs : List UserRow)
    → count_if (λ x. x.user_id == u) (upsert_row new xs)
      ≡ count_if (λ x. x.user_id == u) xs
        + bit (not (is_some (find_user new.user_id xs)) && (new.user_id == u))
unfolding find_user upsert_row overwrite count_if
count_if-upsert_row u new [] = ground arith
count_if-upsert_row u new (x ∷ xs) =
    ground (arith, count_if-upsert_row u new xs, eq_iff x.user_id new.user_id)

pub all_of-upsert_row :
    (p : String → Bool) (new : UserRow) (xs : List UserRow)
    → p new.team_name ≡ true
    → all_of (λ x. p x.team_name) xs ≡ true
    → all_of (λ x. p x.team_name) (upsert_row new xs) ≡ true
unfolding all_of upsert_row overwrite
all_of-upsert_row p new [] h k = ground arith
all_of-upsert_row p new (x ∷ xs) h k = ground (arith, all_of-upsert_row p new xs)

-- A write that leaves the ids as they are finds who was found.
pub find_user-map :
    (u : String) (f : UserRow → UserRow) (xs : List UserRow)
    → ((x : UserRow) → (f x).user_id ≡ x.user_id)
    → is_some (find_user u (map f xs)) ≡ is_some (find_user u xs)
unfolding find_user
find_user-map u f [] same = refl
find_user-map u f (x ∷ xs) same = rw (same x) (elim (Bool-cases (x.user_id == u)) [
  | inl c ↦ rw c refl
  | inr c ↦ rw c (find_user-map u f xs same)
])

pub find_pr-map :
    (p : String) (f : PrRow → PrRow) (xs : List PrRow)
    → ((x : PrRow) → (f x).pull_request_id ≡ x.pull_request_id)
    → is_some (find_pr p (map f xs)) ≡ is_some (find_pr p xs)
unfolding find_pr
find_pr-map p f [] same = refl
find_pr-map p f (x ∷ xs) same = rw (same x) (elim (Bool-cases (x.pull_request_id == p)) [
  | inl c ↦ rw c refl
  | inr c ↦ rw c (find_pr-map p f xs same)
])

pub count_if-same :
    {A : Type 0} (p q : A → Bool) (xs : List A)
    → ((x : A) → p x ≡ q x)
    → count_if p xs ≡ count_if q xs
unfolding count_if
count_if-same p q [] same = refl
count_if-same p q (x ∷ xs) same = ground (arith, same x, count_if-same p q xs same)
