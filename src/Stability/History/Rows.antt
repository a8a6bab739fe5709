-- ===== src/Stability/History/Rows.antt =====
-- Rows of users and pull requests under the writes of storage.go.
use pr_reviewer_service.Prelude.{
  ℕ, String, ◌≡◌, refl, ◌∙◌, ap, true, false, List, [], ◌∷◌, map, arith, ◌==◌, eq_iff, is_some,
  Bool-cases, inl, inr, if◌then◌else◌,
}
use pr_reviewer_service.Domain.{PrStatus}
use pr_reviewer_service.Database.Schema.{UserRow, PrRow, find_user, find_pr}
use pr_reviewer_service.Database.Statements.{overwrite, upsert_row, with_status}
use pr_reviewer_service.Stability.History.{Revised, KeepsUsers, KeepsPrs}

pub Revised-same : (x : PrRow) → Revised x x
Revised-same x = record { name = refl; author = refl; created_at = refl; merge_time = λ t h. h }

pub Revised-next : (x y z : PrRow) → Revised x y → Revised y z → Revised x z
Revised-next x y z h k = record {
  name = k.name ∙ h.name;
  author = k.author ∙ h.author;
  created_at = k.created_at ∙ h.created_at;
  merge_time = λ t m. k.merge_time t (h.merge_time t m);
}

pub KeepsUsers-next :
    (xs ys zs : List UserRow) → KeepsUsers xs ys → KeepsUsers ys zs → KeepsUsers xs zs
KeepsUsers-next xs ys zs h k u row found =
    let (y, there, same) = h u row found in
    let (z, still, again) = k u y there in (z, still, again ∙ same)

pub KeepsPrs-next : (xs ys zs : List PrRow) → KeepsPrs xs ys → KeepsPrs ys zs → KeepsPrs xs zs
KeepsPrs-next xs ys zs h k p row found =
    let (y, there, same) = h p row found in
    let (z, still, again) = k p y there in (z, still, Revised-next row y z same again)

pub upsert_row-KeepsUsers : (new : UserRow) (xs : List UserRow) → KeepsUsers xs (upsert_row new xs)
unfolding find_user upsert_row overwrite
upsert_row-KeepsUsers new [] u row found = absurd (ground arith)
upsert_row-KeepsUsers new (x ∷ xs) u row found = elim (Bool-cases (x.user_id == u)) [
  | inl here ↦ elim (Bool-cases (x.user_id == new.user_id)) [
    | inl hit ↦ rw (hit, here) (overwrite new x, refl, ground (arith, rw here at found))
    | inr miss ↦ rw (miss, here) (x, refl, ground (arith, rw here at found))
  ]
  | inr there ↦
      let rest = upsert_row-KeepsUsers new xs u row (rw there at found) in
      elim (Bool-cases (x.user_id == new.user_id)) [
        | inl hit ↦ rw (hit, there) (row, rw there at found, refl)
        | inr miss ↦ rw (miss, there) rest
      ]
]

pub map-KeepsUsers :
    (f : UserRow → UserRow) (xs : List UserRow)
    → ((x : UserRow) → (f x).user_id ≡ x.user_id)
    → ((x : UserRow) → (f x).created_at ≡ x.created_at)
    → KeepsUsers xs (map f xs)
unfolding find_user
map-KeepsUsers f [] id time u row found = absurd (ground arith)
map-KeepsUsers f (x ∷ xs) id time u row found = elim (Bool-cases (x.user_id == u)) [
  | inl here ↦
      let still : ((f x).user_id == u) ≡ true = ap (λ i. i == u) (id x) ∙ here in
      rw still (f x, refl, time x ∙ ground (arith, rw here at found))
  | inr there ↦
      let not_it : ((f x).user_id == u) ≡ false = ap (λ i. i == u) (id x) ∙ there in
      rw not_it (map-KeepsUsers f xs id time u row (rw there at found))
]

pub map-KeepsPrs :
    (f : PrRow → PrRow) (xs : List PrRow)
    → ((x : PrRow) → (f x).pull_request_id ≡ x.pull_request_id)
    → ((x : PrRow) → Revised x (f x))
    → KeepsPrs xs (map f xs)
unfolding find_pr
map-KeepsPrs f [] id rev p row found = absurd (ground arith)
map-KeepsPrs f (x ∷ xs) id rev p row found = elim (Bool-cases (x.pull_request_id == p)) [
  | inl here ↦
      let still : ((f x).pull_request_id == p) ≡ true = ap (λ i. i == p) (id x) ∙ here in
      let same : row ≡ x = ground (arith, rw here at found) in rw (still, same) (f x, refl, rev x)
  | inr there ↦
      let not_it : ((f x).pull_request_id == p) ≡ false = ap (λ i. i == p) (id x) ∙ there in
      rw not_it (map-KeepsPrs f xs id rev p row (rw there at found))
]

pub insert-KeepsPrs :
    (new : PrRow) (xs : List PrRow)
    → is_some (find_pr new.pull_request_id xs) ≡ false
    → KeepsPrs xs (new ∷ xs)
unfolding find_pr
insert-KeepsPrs new xs fresh p row found = elim (Bool-cases (new.pull_request_id == p)) [
  | inl here ↦ absurd (ground (arith, eq_iff new.pull_request_id p))
  | inr there ↦ rw there (row, found, Revised-same row)
]

pub with_status-Revised :
    (p : String) (s : PrStatus) (now : ℕ) (x : PrRow)
    → Revised x (if x.pull_request_id == p then with_status s now x else x)
with_status-Revised p s now x = record {
  name = ground arith;
  author = ground arith;
  created_at = ground arith;
  merge_time = λ t m. ground (arith, m);
}
