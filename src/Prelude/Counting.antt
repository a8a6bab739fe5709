-- ===== src/Prelude/Counting.antt =====
-- How counts and tests move under the operations on lists.
use Prim.Native.Nat.{ℕ, zero, suc, ◌+◌, ◌≤◌, ◌<◌, min}
use mathlib.Core.Path.{◌≡◌, refl, ap}
use mathlib.Core.Bool.{Bool, true, false, ◌&&◌}
use mathlib.Core.Option.{some}
use mathlib.Core.List.{List, [], ◌∷◌, map}
use native.Mathlib.Omega.{arith}
use pr_reviewer_service.Prelude.Tests.{bit}
use pr_reviewer_service.Prelude.Lists.{
  length, get_elem?, set, take, count_if, any_of, all_of, select,
}

module _ {ℓ} {A : Type ℓ} where
  pub get_elem?-set_self :
      (xs : List A) (i : ℕ) (x v : A) → get_elem? xs i ≡ some x → get_elem? (set xs i v) i ≡ some v
  get_elem?-set_self [] i x v h = ground arith
  get_elem?-set_self (y ∷ xs) zero x v h = refl
  get_elem?-set_self (y ∷ xs) (suc i) x v h = get_elem?-set_self xs i x v h

  -- A place that held `y` holds `y` after `y` is written at any place.
  pub get_elem?-set_same :
      (xs : List A) (i j : ℕ) (y : A) → get_elem? xs j ≡ some y → get_elem? (set xs i y) j ≡ some y
  get_elem?-set_same [] i j y h = h
  get_elem?-set_same (x ∷ xs) zero zero y h = refl
  get_elem?-set_same (x ∷ xs) zero (suc j) y h = h
  get_elem?-set_same (x ∷ xs) (suc i) zero y h = h
  get_elem?-set_same (x ∷ xs) (suc i) (suc j) y h = get_elem?-set_same xs i j y h

  pub count_if-set :
      (p : A → Bool) (xs : List A) (i : ℕ) (x v : A)
      → get_elem? xs i ≡ some x
      → count_if p (set xs i v) + bit (p x) ≡ count_if p xs + bit (p v)
  unfolding count_if
  count_if-set p [] i x v h = ground arith
  count_if-set p (y ∷ xs) zero x v h = ground arith
  count_if-set p (y ∷ xs) (suc i) x v h = omega (arith, count_if-set p xs i x v h)

  pub count_if-take : (p : A → Bool) (n : ℕ) (xs : List A) → count_if p (take n xs) ≤ count_if p xs
  unfolding count_if
  count_if-take p zero xs = omega arith
  count_if-take p (suc n) [] = omega arith
  count_if-take p (suc n) (x ∷ xs) = omega (arith, count_if-take p n xs)

  pub length-take : (n : ℕ) (xs : List A) → length (take n xs) ≡ min n (length xs)
  length-take zero xs = omega arith
  length-take (suc n) [] = omega arith
  length-take (suc n) (x ∷ xs) = omega (arith, length-take n xs)

  pub count_if-true : (xs : List A) → count_if (λ x. true) xs ≡ length xs
  unfolding count_if
  count_if-true [] = refl
  count_if-true (x ∷ xs) = omega (arith, count_if-true xs)

  -- What a selection holds of another test.
  pub count_if-select :
      (p q : A → Bool) (xs : List A) → count_if p (select q xs) ≡ count_if (λ x. q x && p x) xs
  unfolding count_if select
  count_if-select p q [] = refl
  count_if-select p q (x ∷ xs) = ground (arith, count_if-select p q xs)

  pub count_if-le_length : (p : A → Bool) (xs : List A) → count_if p xs ≤ length xs
  unfolding count_if
  count_if-le_length p [] = omega arith
  count_if-le_length p (x ∷ xs) = ground (arith, count_if-le_length p xs)

  pub count_if_mono :
      (p q : A → Bool) (xs : List A)
      → ((x : A) → p x ≡ true → q x ≡ true)
      → count_if p xs ≤ count_if q xs
  unfolding count_if
  count_if_mono p q [] h = omega arith
  count_if_mono p q (x ∷ xs) h = ground (arith, h x, count_if_mono p q xs h)

  pub count_if-none : (p : A → Bool) (xs : List A) → ((x : A) → p x ≡ false) → count_if p xs ≡ 0
  unfolding count_if
  count_if-none p [] h = refl
  count_if-none p (x ∷ xs) h = ground (arith, h x, count_if-none p xs h)

  -- The test of `any_of` is a count.
  pub any_of-count : (p : A → Bool) (xs : List A) → any_of p xs ≡ true → 0 < count_if p xs
  unfolding any_of count_if
  any_of-count p [] h = ground arith
  any_of-count p (x ∷ xs) h = ground (arith, any_of-count p xs)

  pub any_of-of-count : (p : A → Bool) (xs : List A) → 0 < count_if p xs → any_of p xs ≡ true
  unfolding any_of count_if
  any_of-of-count p [] h = absurd (omega arith)
  any_of-of-count p (x ∷ xs) h = ground (arith, any_of-of-count p xs)

  pub all_of_mono :
      (p q : A → Bool) (xs : List A)
      → ((x : A) → p x ≡ true → q x ≡ true)
      → all_of p xs ≡ true
      → all_of q xs ≡ true
  unfolding all_of
  all_of_mono p q [] h k = refl
  all_of_mono p q (x ∷ xs) h k = ground (arith, h x, all_of_mono p q xs h)

  pub all_of-select :
      (p q : A → Bool) (xs : List A) → all_of p xs ≡ true → all_of p (select q xs) ≡ true
  unfolding all_of select
  all_of-select p q [] k = refl
  all_of-select p q (x ∷ xs) k = ground (arith, all_of-select p q xs)

module _ {ℓ κ} {A : Type ℓ} {B : Type κ} where
  pub length-map : (f : A → B) (xs : List A) → length (map f xs) ≡ length xs
  length-map f [] = refl
  length-map f (x ∷ xs) = omega (arith, length-map f xs)

  pub count_if-map :
      (p : B → Bool) (f : A → B) (xs : List A) → count_if p (map f xs) ≡ count_if (λ x. p (f x)) xs
  unfolding count_if
  count_if-map p f [] = refl
  count_if-map p f (x ∷ xs) = omega (arith, count_if-map p f xs)

  pub all_of-map :
      (p : B → Bool) (f : A → B) (xs : List A) → all_of p (map f xs) ≡ all_of (λ x. p (f x)) xs
  unfolding all_of
  all_of-map p f [] = refl
  all_of-map p f (x ∷ xs) = ap (λ b. p (f x) && b) (all_of-map p f xs)
