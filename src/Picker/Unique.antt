-- ===== src/Picker/Unique.antt =====
-- `uniqueIDs`: the keys of the set, each once.
use pr_reviewer_service.Prelude.{
  String, ◌≡◌, refl, ◌∙◌, ◌&&◌, ◌||◌, not, List, [], ◌∷◌, arith, ◌==◌, eq_iff, bit, any_of,
  count_if, count, str_mem,
}
use pr_reviewer_service.Picker.{is_blank, add_key, add_keys, unique_ids}

-- `a` stands in the list once if at all.
abbrev AtMostOnce : String → List String → Type 0
AtMostOnce a keys = count a keys ≡ bit (str_mem a keys)

str_mem-add_key :
    (a v : String) (keys : List String) → str_mem a (add_key v keys) ≡ (v == a || str_mem a keys)
unfolding any_of
str_mem-add_key a v keys = ground (arith, eq_iff v a)

add_key-AtMostOnce :
    (a v : String) (keys : List String) → AtMostOnce a keys → AtMostOnce a (add_key v keys)
unfolding any_of count_if
add_key-AtMostOnce a v keys h = ground (arith, eq_iff v a)

-- The loop, from any set of keys.
add_keys_lem :
    (a : String) (vs keys : List String)
    → AtMostOnce a keys
    → count a (add_keys vs keys) ≡ bit (str_mem a keys || (str_mem a vs && not (is_blank a)))
unfolding add_keys any_of
add_keys_lem a [] keys h = ground arith
add_keys_lem a (v ∷ vs) keys h = ground (
  arith,
  eq_iff v a,
  add_keys_lem a vs keys,
  add_keys_lem a vs (add_key v keys),
  add_key-AtMostOnce a v keys,
  str_mem-add_key a v keys,
)

-- An entry of the list stands in the result exactly once, unless it is blank; nothing else does.
pub count-unique_ids :
    (iterate : List String → List String)
    → ((a : String) (xs : List String) → count a (iterate xs) ≡ count a xs)
    → (a : String) (values : List String)
    → count a (unique_ids iterate values) ≡ bit (str_mem a values && not (is_blank a))
unfolding unique_ids
count-unique_ids iterate keeps a values =
    keeps a (add_keys values []) ∙ unfold any_of count_if in add_keys_lem a values [] refl
