-- ===== src/Effects/Choice.antt =====
-- Whom `CreatePullRequest` picks, against the table of users.
use pr_reviewer_service.Prelude.{
  ◌≤◌, min, String, ◌≡◌, refl, sym, ◌∙◌, ap, Bool, true, ◌&&◌, List, [], ◌∷◌, map, arith, ◌==◌,
  count_if, count, length, select, count_if-map, count_if-select, count_if-true, length-map,
}
use pr_reviewer_service.Picker.Laws.{IsPickOf, user_ids}
use pr_reviewer_service.Database.Schema.{Db}
use pr_reviewer_service.Database.Queries.{user_of, eligible, active_members}
use pr_reviewer_service.Repository.Monad.{Env}

-- Whom the code may choose, told by the table of users alone.
pub record Chosen (d₀ : Db) (author team : String) (ids : List String) : Type 0 where
  -- as many as there are, and at most two
  pub enough : length ids ≡ min 2 (count_if (eligible team (author ∷ [])) d₀.users)
  -- each of them an active member of the team other than the author, and no one too often
  pub fit :
      (s : String)
      → count s ids ≤ count_if (λ x. eligible team (author ∷ []) x && x.user_id == s) d₀.users

count_and_true :
    {A : Type 0} (p : A → Bool) (xs : List A) → count_if p xs ≡ count_if (λ x. p x && true) xs
unfolding count_if
count_and_true p [] = refl
count_and_true p (x ∷ xs) = ground (arith, count_and_true p xs)

module _ (e : Env) (d₀ : Db) (t : String) (exclude : List String) where
  pub length-candidates :
      length (user_ids (active_members t exclude (e.scan_users d₀.users)))
      ≡ count_if (eligible t exclude) d₀.users
  unfolding active_members
  length-candidates =
      let rows = select (eligible t exclude) (e.scan_users d₀.users) in
      length-map (λ u. u.id) (map user_of rows)
      ∙ length-map user_of rows
      ∙ sym (count_if-true rows)
      ∙ count_if-select (λ x. true) (eligible t exclude) (e.scan_users d₀.users)
      ∙ e.scan_users_keeps (λ x. eligible t exclude x && true) d₀.users
      ∙ sym (count_and_true (eligible t exclude) d₀.users)

  pub count-candidates :
      (s : String)
      → count s (user_ids (active_members t exclude (e.scan_users d₀.users)))
        ≡ count_if (λ x. eligible t exclude x && x.user_id == s) d₀.users
  unfolding active_members
  count-candidates s =
      let rows = select (eligible t exclude) (e.scan_users d₀.users) in
      count_if-map (λ a. a == s) (λ u. u.id) (map user_of rows)
      ∙ count_if-map (λ u. u.id == s) user_of rows
      ∙ count_if-select (λ x. x.user_id == s) (eligible t exclude) (e.scan_users d₀.users)
      ∙ e.scan_users_keeps (λ x. eligible t exclude x && x.user_id == s) d₀.users

pub picked-Chosen :
    (e : Env) (d₀ : Db) (author t : String) (ids : List String)
    → IsPickOf (user_ids (active_members t (author ∷ []) (e.scan_users d₀.users))) 2 ids
    → Chosen d₀ author t ids
picked-Chosen e d₀ author t ids h = record {
  enough = h.size ∙ ap (min 2) (length-candidates e d₀ t (author ∷ []));
  fit = λ s. omega (arith, h.from_candidates s, count-candidates e d₀ t (author ∷ []) s);
}
