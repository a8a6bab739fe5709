-- ===== src/Equivalence/People.antt =====
-- Activity and teams: what `Storage` writes, against what `txStorage` writes in a transaction.

use mathlib.Core.Option
use pr_reviewer_service.Prelude.{
  ℕ, String, ◌≡◌, refl, ◌∙◌, ap, Bool, true, false, not, List, [], ◌∷◌, map, arith, ◌==◌, is_some,
  Bool-cases, Option-cases, inl, inr, if◌then◌else◌,
}
use pr_reviewer_service.Domain.{err_user_not_found}
use pr_reviewer_service.Database.Schema.{UserRow, Db, find_user}
use pr_reviewer_service.Database.Statements.{done, update_activity, with_activity}
use pr_reviewer_service.Database.Queries.{user_of}
use pr_reviewer_service.Repository.Monad.{
  execute_query, scan_result, domain, World, Env, M, pure, raise_if, on_error, wrap, not_found,
  exec, to_sql, build_query, ◌>>=◌, ◌>>◌,
}
use pr_reviewer_service.Repository.Triple.{
  Triple, Triple-pure, Triple-bind, Triple-on_error, Triple-raise_when, Triple-exec, Triple-to_sql,
  Triple-widen, Triple-given,
}
use pr_reviewer_service.Repository.Calm.{Never, calm_query_row, calm_send}
use pr_reviewer_service.Repository.Users
use pr_reviewer_service.Repository.Users.{read_user, update_user_activity}
use pr_reviewer_service.Repository.Tx
use pr_reviewer_service.Repository.Tx.{with_transaction}
use pr_reviewer_service.Stability.Keys.Rows.{find_user-map}
use pr_reviewer_service.Equivalence.{Steady, Same}
use pr_reviewer_service.Equivalence.Rules.{
  Same-pure_eq, Same-bind, Same-wrap, Same-raise_if, Same-to_sql, Same-now, Same-exec,
}
use pr_reviewer_service.Equivalence.Reads.{get_user_by_id-Same}
use pr_reviewer_service.Equivalence.Transactions.{Same-single}

-- Where nobody has the key, the update changes nothing; where somebody has it, they are found.
unmatched :
    (u : String) (active : Bool) (time : ℕ) (xs : List UserRow)
    → is_some (find_user u xs) ≡ false
    → map (λ x. if x.user_id == u then with_activity active time x else x) xs ≡ xs
unfolding find_user
unmatched u active time [] h = refl
unmatched u active time (x ∷ xs) h = elim (Bool-cases (x.user_id == u)) [
  | inl here ↦ absurd (ground (arith, rw here at h))
  | inr there ↦ rw there (ap (λ rest. x ∷ rest) (unmatched u active time xs (rw there at h)))
]

module _ (e : Env) (t : ℕ) (steady : Steady e t) where
  update-Same :
      (u : String) (active : Bool)
      → Same (update_user_activity e u active t) (update_user_activity e u active t)
  unfolding update_user_activity
  update-Same u active = record {
    at = λ w w' same.
        let write : M (Unit {0}) = exec e (λ d. done (update_activity (λ x. x == u) active t d)) in
        let known : World → Bool = λ v. is_some (find_user u v.db.users) in
        let steps : Same (write >> pure (known w)) (write >> pure (known w')) =
          Same-bind _ _ _ _ (Same-exec e t steady _)
            λ _. Same-pure_eq _ _ (ap (λ (d : Db). is_some (find_user u d.users)) same) in
        steps.at w w' same;
  }

  set_user_activity-steps :
      (u : String) (active : Bool)
      → Same (Users.set_user_activity e u active) (Tx.set_user_activity e t u active)
  unfolding Users.set_user_activity Tx.set_user_activity
  set_user_activity-steps u active = Same-now e t steady _ _ (
      Same-to_sql e t steady _ _ (
        Same-bind _ _ _ _ (Same-wrap execute_query _ _ (update-Same u active)) λ affected.
          Same-bind _ _ _ _ (Same-raise_if (not affected) (domain err_user_not_found))
            λ _. get_user_by_id-Same e t steady u))

  -- The tables after the update.
  abbrev written : String → Bool → Db → Db
  written u active d = update_activity (λ x. x == u) active t d

  update_triple :
      (u : String) (active : Bool) (d₀ : Db)
      → Triple
          (λ d. d ≡ d₀)
          (update_user_activity e u active t)
          (λ b d. (b ≡ is_some (find_user u d₀.users)) × (d ≡ written u active d₀))
          (λ d. d ≡ d₀)
  unfolding update_user_activity
  update_triple u active d₀ = record {
    at = λ w same.
        let steps : Triple (λ d. d ≡ d₀)
            (exec e (λ d. done (written u active d)) >> pure (is_some (find_user u w.db.users)))
            (λ b d. (b ≡ is_some (find_user u d₀.users)) × (d ≡ written u active d₀))
            (λ d. d ≡ d₀) =
          Triple-bind _ _
            (Triple-exec e (λ d h. h) {Q = λ d. d ≡ written u active d₀} _
              (λ d h. ap (written u active) h))
            λ _. Triple-pure _ (λ d h. (ap (λ (x : Db). is_some (find_user u x.users)) same, h)) in
        steps.at w same;
  }

  nobody_written :
      (u : String) (active : Bool) (d₀ : Db)
      → is_some (find_user u d₀.users) ≡ false
      → written u active d₀ ≡ d₀
  unfolding update_activity
  nobody_written u active d₀ h =
      ap (λ rows. record d₀ { users = rows }) (unmatched u active t d₀.users h)

  abbrev Known : String → Db → Type 0
  Known u d = is_some (find_user u d.users) ≡ true

  somebody_written :
      (u : String) (active : Bool) (d₀ : Db) → Known u d₀ → Known u (written u active d₀)
  unfolding update_activity
  somebody_written u active d₀ h =
      find_user-map u (λ x. if x.user_id == u then with_activity active t x else x) d₀.users
        (λ x. ground arith)
      ∙ h

  get_user_by_id_calm :
      (u : String) → Triple (Known u) (Users.get_user_by_id e u) (λ _ _. Unit {0}) Never
  unfolding Users.get_user_by_id to_sql
  get_user_by_id_calm u =
      Triple-bind _ _ (Triple-on_error (wrap build_query) _ (calm_send e steady.calm)) λ _.
        Triple-on_error (not_found err_user_not_found (wrap scan_result)) _ (
          calm_query_row e steady.calm {Q = λ _ d. Unit {0}} (read_user u) (λ d h.
            elim (Option-cases (find_user u d.users)) [
              | inl missing ↦ absurd (ground (arith, h, missing))
              | inr (row, found) ↦ (user_of row, ap (Option.map user_of) found, tt)
            ]))

  set_user_activity-keeps :
      (u : String) (active : Bool) (d₀ : Db)
      → Triple (λ d. d ≡ d₀) (Users.set_user_activity e u active) (λ _ _. Unit {0}) (λ d. d ≡ d₀)
  unfolding Users.set_user_activity ◌>>=◌
  set_user_activity-keeps u active d₀ = record {
    at = λ w same. rw (steady.time w.sent) (rest.at w same);
  }
    where
      rest :
          Triple
            (λ d. d ≡ d₀)
            (to_sql e
              >> (on_error (wrap execute_query) (update_user_activity e u active t) >>= λ affected.
                  raise_if (not affected) (domain err_user_not_found) >> Users.get_user_by_id e u))
            (λ _ _. Unit {0})
            (λ d. d ≡ d₀)
      rest = Triple-bind _ _ (Triple-to_sql e (λ d h. h)) λ _.
          Triple-bind _ _ (Triple-on_error (wrap execute_query) _ (update_triple u active d₀))
            λ affected. Triple-given _ λ read.
              Triple-bind _ _
                (Triple-raise_when {Q = Known u} (not affected) (domain err_user_not_found)
                  (λ d absent h. h ∙ nobody_written u active d₀ (ground (arith, absent, read)))
                  (λ d present h.
                    ap (λ (x : Db). is_some (find_user u x.users)) h
                    ∙ somebody_written u active d₀ (ground (arith, present, read))))
                λ _. Triple-widen _ (λ d h. absurd h) (get_user_by_id_calm u)

  pub set_user_activity-Same :
      (u : String) (active : Bool)
      → Same
          (Users.set_user_activity e u active)
          (with_transaction e (λ s. Tx.set_user_activity e s u active))
  unfolding with_transaction
  set_user_activity-Same u active =
      Same-single e t steady _ _ (set_user_activity-steps u active)
        (set_user_activity-keeps u active)
