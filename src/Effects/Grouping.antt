-- ===== src/Effects/Grouping.antt =====
-- The map that `ListOpenPRsByReviewer` builds.
use pr_reviewer_service.Prelude.{
  String, ◌≡◌, refl, sym, ◌∙◌, ap, some, List, [], ◌∷◌, ◌++◌, map, arith, ◌==◌, eq_iff, select,
  Bool-cases, inl, inr, if◌then◌else◌,
}
use pr_reviewer_service.Repository.Listings.{Dict, lookup, insert, entries, push, group}

-- The entries of a key among the rows, in their order.
abbrev pub rows_of : String → List (String × String) → List String
rows_of k rows = map (λ r. r.1) (select (λ r. r.0 == k) rows)

pub lookup-insert :
    {V : Type 0} (k j : String) (v : V) (m : Dict V)
    → lookup k (insert j v m) ≡ (if j == k then some v else lookup k m)
unfolding lookup insert
lookup-insert k j v [] = refl
lookup-insert k j v ((i, w) ∷ m) =
    ground (arith, eq_iff i j, eq_iff i k, eq_iff j k, lookup-insert k j v m)

pub entries-push :
    (k j v : String) (m : Dict (List String))
    → entries k (push j v m) ≡ (if j == k then entries k m ++ v ∷ [] else entries k m)
unfolding push entries
entries-push k j v m = ground (arith, lookup-insert k j (entries j m ++ v ∷ []) m, eq_iff j k)

append_none : (xs : List String) → xs ++ [] ≡ xs
append_none [] = refl
append_none (x ∷ xs) = ap (λ ys. x ∷ ys) (append_none xs)

append_assoc : (xs ys zs : List String) → (xs ++ ys) ++ zs ≡ xs ++ (ys ++ zs)
append_assoc [] ys zs = refl
append_assoc (x ∷ xs) ys zs = ap (λ rest. x ∷ rest) (append_assoc xs ys zs)

appended :
    (k j v : String) (xs : List String) (rows : List (String × String))
    → (if j == k then xs ++ v ∷ [] else xs) ++ rows_of k rows ≡ xs ++ rows_of k ((j, v) ∷ rows)
unfolding select
appended k j v xs rows = elim (Bool-cases (j == k)) [
  | inl same ↦ rw same (append_assoc xs (v ∷ []) (rows_of k rows))
  | inr other ↦ rw other refl
]

group_lem :
    (k : String) (rows : List (String × String)) (m : Dict (List String))
    → entries k (group rows m) ≡ entries k m ++ rows_of k rows
unfolding group select
group_lem k [] m = sym (append_none (entries k m))
group_lem k ((j, v) ∷ rows) m =
    group_lem k rows (push j v m)
    ∙ ap (λ xs. xs ++ rows_of k rows) (entries-push k j v m)
    ∙ appended k j v (entries k m) rows

-- For every key the map that the loop over the rows builds holds the values of the rows with that
-- key, all of them and in the order of the rows.
pub entries-group :
    (k : String) (rows : List (String × String)) → entries k (group rows []) ≡ rows_of k rows
unfolding entries lookup
entries-group k rows = group_lem k rows []
