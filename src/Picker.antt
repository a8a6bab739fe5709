-- ===== src/Picker.antt =====
-- `pickRandomIDs` and `uniqueIDs` of internal/service/service.go, over `Shuffle` of
-- internal/infrastructure/randomizer/randomizer.go and the loop of math/rand. `none` is a panic: an
-- index that is out of range.
pub mod Laws
pub mod Unique
use pr_reviewer_service.Prelude.{
  ℕ, zero, suc, ◌-◌, ◌%◌, String, ◌||◌, Bool, Option, none, some, List, [], ◌∷◌, map, leb, length,
  get_elem?, set, take, is_empty, str_mem, if◌then◌else◌,
}
use pr_reviewer_service.Domain.{User}
use pr_reviewer_service.Validation.{trim_space}
use pr_reviewer_service.Repository.Monad.{Env, M, World, Result, ok, panic}

abbrev pub exchange : List String → ℕ → ℕ → Option String → Option String → Option (List String)
exchange ids i j (some x) (some y) = some (set (set ids i y) j x)
exchange ids i j _ _ = none

-- `ids[i], ids[j] = ids[j], ids[i]`
unfoldable pub swap : List String → ℕ → ℕ → Option (List String)
swap ids i j = exchange ids i j (get_elem? ids i) (get_elem? ids j)

-- `rand.Shuffle`: i goes down to 1, and j is any number from 0 to i. The second part of the result
-- is the position in the stream of random numbers.
unfoldable pub shuffle_loop : (ℕ → ℕ) → ℕ → ℕ → List String → Option (List String × ℕ)
unfolding swap
shuffle_loop random zero k ids = some (ids, k)
shuffle_loop random (suc i) k ids = elim (swap ids (suc i) (random k % suc (suc i))) [
  | none ↦ none
  | some moved ↦ shuffle_loop random i (suc k) moved
]

unfoldable pub shuffle : (ℕ → ℕ) → ℕ → List String → Option (List String × ℕ)
unfolding shuffle_loop
shuffle random k ids =
    if leb (length ids) 1 then some (ids, k) else shuffle_loop random (length ids - 1) k ids

-- `ids` if they are few enough, else `ids[:limit]`
abbrev pub first_of_ids : ℕ → List String → List String
first_of_ids limit ids = if leb (length ids) limit then ids else take limit ids

unfoldable pub pick_random_ids : (ℕ → ℕ) → List User → ℕ → ℕ → Option (List String × ℕ)
unfolding shuffle
pick_random_ids random users limit k =
    if is_empty users || leb limit 0
    then some ([], k)
    else elim (shuffle random k (map (λ u. u.id) users)) [
      | none ↦ none
      | some (ids, k') ↦ some (first_of_ids limit ids, k')
    ]

abbrev pub picked : World → Option (List String × ℕ) → Result (List String) × World
picked w none = (panic, w)
picked w (some (ids, k)) = (ok ids, record w { drawn = k })

unfoldable pub pick : Env → List User → ℕ → M (List String)
pick e users limit w = picked w (pick_random_ids e.random users limit w.drawn)

-- `strings.TrimSpace(v) == ""`
unfoldable pub is_blank : String → Bool
unfolding trim_space
is_blank v = is_empty (trim_space v)

-- `set[v] = struct{}{}`
abbrev pub add_key : String → List String → List String
add_key v keys = if str_mem v keys then keys else v ∷ keys

unfoldable pub add_keys : List String → List String → List String
unfolding is_blank
add_keys [] keys = keys
add_keys (v ∷ vs) keys = add_keys vs (if is_blank v then keys else add_key v keys)

unfoldable pub unique_ids : (List String → List String) → List String → List String
unfolding add_keys
unique_ids iterate values = iterate (add_keys values [])
