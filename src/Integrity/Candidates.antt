-- ===== src/Integrity/Candidates.antt =====
-- What the service knows of the reviewers that it picks: they come from the query for active
-- members, which leaves the excluded people out.
use pr_reviewer_service.Prelude.{
  ℕ, String, ◌≡◌, refl, true, false, Option, some, none, List, [], ◌∷◌, arith, ◌==◌, eq_iff, inl,
  inr, Option-cases, any_of-of-count, str_mem, select, count_if, count,
}
use pr_reviewer_service.Domain.{User}
use pr_reviewer_service.Validation.{validate_user_id}
use pr_reviewer_service.Picker.{is_blank, unique_ids, pick, picked, pick_random_ids}
use pr_reviewer_service.Picker.Laws.{IsPickOf, user_ids, pick_random_ids-IsPickOf}
use pr_reviewer_service.Picker.Unique.{count-unique_ids}
use pr_reviewer_service.Database.Schema.{UserRow, Db, find_user}
use pr_reviewer_service.Database.Queries.{active_members}
use pr_reviewer_service.Repository.Monad.{World, Env}
use pr_reviewer_service.Repository.Triple.{Triple, After}
use pr_reviewer_service.Repository.Users.{read_user}
use pr_reviewer_service.Service.Basic.{check}

-- Nobody who is excluded is among the candidates.
pub count-active_members :
    (a t : String) (exclude : List String) (rows : List UserRow)
    → str_mem a exclude ≡ true
    → count a (user_ids (active_members t exclude rows)) ≡ 0
unfolding active_members select count_if
count-active_members a t exclude [] h = refl
count-active_members a t exclude (x ∷ rows) h =
    ground (arith, eq_iff x.user_id a, count-active_members a t exclude rows h)

-- A valid user id is not blank.
pub validate_user_id-named : (u : String) → validate_user_id u ≡ none → is_blank u ≡ false
unfolding validate_user_id is_blank
validate_user_id-named u h = ground arith

pub find_user-id :
    (u : String) (rows : List UserRow) (row : UserRow)
    → find_user u rows ≡ some row
    → row.user_id ≡ u
unfolding find_user
find_user-id u [] row e = ground arith
find_user-id u (x ∷ rows) row e = ground (arith, eq_iff x.user_id u, find_user-id u rows row)

-- The user that is read has the id that was asked for.
pub read_user-id : (u : String) (d : Db) (user : User) → read_user u d ≡ some user → user.id ≡ u
read_user-id u d user h = elim (Option-cases (find_user u d.users)) [
  | inl missing ↦ absurd (ground arith)
  | inr (row, found) ↦ ground (arith, find_user-id u d.users row found)
]

-- An entry of a list that is not blank is among the keys that `uniqueIDs` returns.
pub str_mem-unique_ids :
    (e : Env) (a : String) (values : List String)
    → str_mem a values ≡ true
    → is_blank a ≡ false
    → str_mem a (unique_ids e.iterate values) ≡ true
str_mem-unique_ids e a values there named =
    any_of-of-count (λ b. b == a) (unique_ids e.iterate values)
      (rw (count-unique_ids e.iterate e.iterate_keeps a values, there, named) (omega arith))

module _ (P X : Db → Type 0) where
  picked_lem :
      (e : Env) (users : List User) (limit k : ℕ) (w : World)
      → P w.db
      → After
          (λ ids d. IsPickOf (user_ids users) limit ids × P d)
          X
          (picked w (pick_random_ids e.random users limit k)).0
          (picked w (pick_random_ids e.random users limit k)).1.db
  picked_lem e users limit k w p =
      let (ids, k', found, h) = pick_random_ids-IsPickOf e.random users limit k in rw found (h, p)

module _ {P X : Db → Type 0} where
  -- A check that passes.
  pub Triple-check :
      (o : Option String) → ((d : Db) → P d → X d) → Triple P (check o) (λ _ d. (o ≡ none) × P d) X
  Triple-check none x = record { at = λ w p. (refl, p) }
  Triple-check (some text) x = record { at = λ w p. x w.db p }

  -- Picking never panics.
  pub Triple-pick :
      (e : Env) (users : List User) (limit : ℕ)
      → Triple P (pick e users limit) (λ ids d. IsPickOf (user_ids users) limit ids × P d) X
  unfolding pick
  Triple-pick e users limit = record { at = λ w p. picked_lem P X e users limit w.drawn w p }
