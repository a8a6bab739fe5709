-- ===== src/Picker/Laws.antt =====
-- What picking reviewers promises: no panic, as many as asked for, and each candidate no more often
-- than it is offered.
use pr_reviewer_service.Prelude.{
  false, ℕ, zero, suc, ◌-◌, ◌%◌, ◌≤◌, ◌<◌, ◌⊎◌, min, String, ◌≡◌, refl, some, List, [], ◌∷◌, map,
  arith, ◌==◌, leb, length, get_elem?, set, count_if, count, length-set, get_elem?-some,
  get_elem?-set_same, count_if-set, count_if-take, length-take, Bool-cases, inl, inr,
}
use pr_reviewer_service.Domain.{User}
use pr_reviewer_service.Picker.{swap, shuffle_loop, shuffle, pick_random_ids, first_of_ids}

-- `ys` is a rearrangement of `xs`.
pub record Rearranges (xs ys : List String) : Type 0 where
  pub same_length : length ys ≡ length xs
  pub same_items : (a : String) → count a ys ≡ count a xs

pub Rearranges-refl : (xs : List String) → Rearranges xs xs
Rearranges-refl xs = record { same_length = refl; same_items = λ a. refl }

pub Rearranges-trans :
    {xs ys zs : List String} → Rearranges xs ys → Rearranges ys zs → Rearranges xs zs
Rearranges-trans g h = record {
  same_length = omega (arith, g.same_length, h.same_length);
  same_items = λ a. omega (arith, g.same_items a, h.same_items a);
}

Rearranges-exchange :
    (xs : List String) (i j : ℕ) (x y : String)
    → get_elem? xs i ≡ some x
    → get_elem? xs j ≡ some y
    → Rearranges xs (set (set xs i y) j x)
Rearranges-exchange xs i j x y hi hj = record {
  same_length = omega (arith, length-set (set xs i y) j x, length-set xs i y);
  same_items = λ a. omega (
    arith,
    count_if-set (λ b. b == a) xs i x y hi,
    count_if-set (λ b. b == a) (set xs i y) j y x (get_elem?-set_same xs i j y hj),
  );
}

-- A swap of two places that are there rearranges the list.
pub swap-Rearranges :
    (xs : List String) (i j : ℕ)
    → i < length xs
    → j < length xs
    → (ys : List String) × (swap xs i j ≡ some ys) × Rearranges xs ys
unfolding swap
swap-Rearranges xs i j hi hj =
    let (x, ex) = get_elem?-some xs i hi in
    let (y, ey) = get_elem?-some xs j hj in
    (set (set xs i y) j x, rw (ex, ey), Rearranges-exchange xs i j x y ex ey)

-- The loop ends without a panic from every place below the length.
shuffle_loop-Rearranges :
    (random : ℕ → ℕ) (i k : ℕ) (xs : List String)
    → i ≡ 0 ⊎ i < length xs
    → (ys : List String) × (k' : ℕ) × (shuffle_loop random i k xs ≡ some (ys, k'))
      × Rearranges xs ys
unfolding shuffle_loop
shuffle_loop-Rearranges random zero k xs h = (xs, k, refl, Rearranges-refl xs)
shuffle_loop-Rearranges random (suc i) k xs h =
    let j = random k % suc (suc i) in
    let (zs, moved, g) = swap-Rearranges xs (suc i) j (omega arith) (omega arith) in
    let (ys, k', e, r) =
      shuffle_loop-Rearranges random i (suc k) zs (inr (omega (arith, g.same_length))) in
    (ys, k', rw (moved, shuffle_loop) e, Rearranges-trans g r)

pub shuffle-Rearranges :
    (random : ℕ → ℕ) (k : ℕ) (xs : List String)
    → (ys : List String) × (k' : ℕ) × (shuffle random k xs ≡ some (ys, k')) × Rearranges xs ys
unfolding shuffle
shuffle-Rearranges random k xs = elim (Bool-cases (leb (length xs) 1)) [
  | inl short ↦ (xs, k, rw short, Rearranges-refl xs)
  | inr long ↦
      let (ys, k', e, r) =
        shuffle_loop-Rearranges random (length xs - 1) k xs (inr (ground arith)) in
      (ys, k', rw long e, r)
]

-- The chosen list against the candidates.
pub record IsPickOf (candidates : List String) (limit : ℕ) (ids : List String) : Type 0 where
  pub size : length ids ≡ min limit (length candidates)
  pub from_candidates : (a : String) → count a ids ≤ count a candidates

first_of_ids-IsPickOf :
    (limit : ℕ) (xs ys : List String) → Rearranges xs ys → IsPickOf xs limit (first_of_ids limit ys)
first_of_ids-IsPickOf limit xs ys r = elim (Bool-cases (leb (length ys) limit)) [
  | inl few ↦ rw few (record {
    size = ground (arith, r.same_length);
    from_candidates = λ a. omega (arith, r.same_items a);
  })
  | inr many ↦ rw many (record {
    size = ground (arith, r.same_length, length-take limit ys);
    from_candidates = λ a. omega (arith, r.same_items a, count_if-take (λ b. b == a) limit ys);
  })
]

abbrev pub user_ids : List User → List String
user_ids = map (λ u. u.id)

leb-suc_zero : (l : ℕ) → leb (suc l) 0 ≡ false
leb-suc_zero l = ground arith

-- For every stream of random numbers `pickRandomIDs` returns without a panic; it chooses as many
-- candidates as there are, up to the limit, and none more often than it is offered.
pub pick_random_ids-IsPickOf :
    (random : ℕ → ℕ) (users : List User) (limit k : ℕ)
    → (ids : List String) × (k' : ℕ) × (pick_random_ids random users limit k ≡ some (ids, k'))
      × IsPickOf (user_ids users) limit ids
unfolding pick_random_ids count_if
pick_random_ids-IsPickOf random [] limit k =
    ([], k, refl, record { size = omega arith; from_candidates = λ a. omega arith })
pick_random_ids-IsPickOf random (u ∷ us) zero k =
    ([], k, refl, record { size = omega arith; from_candidates = λ a. omega arith })
pick_random_ids-IsPickOf random (u ∷ us) (suc l) k =
    let (ys, k', e, r) = shuffle-Rearranges random k (user_ids (u ∷ us)) in
    (
      first_of_ids (suc l) ys,
      k',
      rw (leb-suc_zero l, e),
      first_of_ids-IsPickOf (suc l) (user_ids (u ∷ us)) ys r,
    )
