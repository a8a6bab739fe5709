-- ===== src/Integrity/Storage.antt =====
-- The operations of internal/repository/storage.go that write keep the invariant, whether they
-- succeed or fail.
use pr_reviewer_service.Prelude.{ℕ, String, Bool, false, List, [], ◌∷◌, not, is_some, ◌==◌}
use pr_reviewer_service.Domain.{User, Team, err_user_not_found, err_team_exists}
use pr_reviewer_service.Database.Schema.{Db, find_user}
use pr_reviewer_service.Database.Statements.{done, upsert_user, update_activity}
use pr_reviewer_service.Repository.Monad.{execute_query, domain, Env, M, pure, wrap, exec, ◌>>=◌}
use pr_reviewer_service.Repository.Triple.{
  Holds, Triple, Triple-pure, Triple-bind, Triple-on_error, Triple-raise_if, Triple-to_sql,
  Triple-query, Triple-exec, Triple-now, Triple-weaken, Triple-with_tx,
}
use pr_reviewer_service.Repository.Teams.{upsert_members, create_team_body, create_team, member_row}
use pr_reviewer_service.Repository.Users.{
  update_user_activity, set_user_activity, deactivate_users, get_user_by_id,
}
use pr_reviewer_service.Integrity.Invariant.{IsKept}
use pr_reviewer_service.Integrity.Writes.{
  insert_team-IsKept, upsert_user-IsKept, update_activity-IsKept,
}
use pr_reviewer_service.Integrity.Reads.{get_team_reads, get_user_by_id_reads}

-- What a body may leave behind when it fails: anything, since it is rolled back.
abbrev pub Anything : Db → Type 0
Anything d = Unit

-- `m` keeps the invariant and the merged pull requests, on every way out.
abbrev pub Keeps : {A : Type 0} → Db → M A → Type 0
Keeps d₀ m = Holds (IsKept d₀) m

module _ (e : Env) (d₀ : Db) where
  upsert_members-Keeps :
      (t : String) (time : ℕ) (ms : List User)
      → Triple (IsKept d₀) (upsert_members e t time ms) (λ _. IsKept d₀) Anything
  unfolding upsert_members
  upsert_members-Keeps t time [] = Triple-pure tt (λ d k. k)
  upsert_members-Keeps t time (m ∷ ms) = Triple-bind _ _ (Triple-to_sql e (λ d k. tt)) λ _.
      Triple-bind _ _
        (Triple-on_error (wrap execute_query) _ (
          Triple-exec e (λ d k. tt) (upsert_user (member_row t time m))
            (λ d k. upsert_user-IsKept d k (member_row t time m))))
        λ _. upsert_members-Keeps t time ms

  pub create_team-Keeps : (team : Team) → Keeps d₀ (create_team e team)
  unfolding create_team create_team_body
  create_team-Keeps team =
      Triple-bind _ _
        (Triple-with_tx {Y = Anything} e _ (λ d k. k) (λ _ d k. k)
          (λ started. Triple-bind _ _ (Triple-to_sql e (λ d k. tt)) λ _.
            Triple-bind _ _
              (Triple-on_error (wrap execute_query) _
                (Triple-query e (λ d k. tt) {Q = λ _. IsKept d₀} _ (λ d k. k)))
              λ exists.
                Triple-bind _ _
                  (Triple-raise_if exists (domain err_team_exists) (λ d k. tt) (λ d _ k. k))
                  λ _. Triple-bind _ _ (Triple-to_sql e (λ d k. tt)) λ _.
                    Triple-bind _ _
                      (Triple-on_error (wrap execute_query) _ (
                        Triple-exec e (λ d k. tt) _
                          (λ d k. insert_team-IsKept d k started team.name)))
                      λ _.
                        Triple-bind _ _ (Triple-now e)
                          λ time. upsert_members-Keeps team.name time team.members))
        λ _. get_team_reads e (λ d k. k) team.name

  update_user_activity-Keeps :
      (u : String) (active : Bool) (time : ℕ) → Keeps d₀ (update_user_activity e u active time)
  unfolding update_user_activity
  update_user_activity-Keeps u active time = record {
    at = λ w k.
        let steps : Keeps d₀ (
            exec e (λ d. done (update_activity (λ x. x == u) active time d)) >>= λ _.
            pure (is_some (find_user u w.db.users))) =
          Triple-bind _ _
            (Triple-exec e (λ d k. k) _
              (λ d k. update_activity-IsKept d k (λ x. x == u) active time))
            λ _. Triple-pure _ (λ d k. k) in
        steps.at w k;
  }

  pub set_user_activity-Keeps :
      (u : String) (active : Bool) → Keeps d₀ (set_user_activity e u active)
  unfolding set_user_activity
  set_user_activity-Keeps u active = Triple-bind _ _ (Triple-now e) λ time.
      Triple-bind _ _ (Triple-to_sql e (λ d k. k)) λ _.
        Triple-bind _ _
          (Triple-on_error (wrap execute_query) _ (update_user_activity-Keeps u active time))
          λ affected.
            Triple-bind _ _
              (Triple-raise_if (not affected) (domain err_user_not_found) (λ d k. k) (λ d _ k. k))
              λ _.
                Triple-weaken (get_user_by_id e u) (λ a d h. h.0)
                  (get_user_by_id_reads e (λ d k. k) u)

  pub deactivate_users-Keeps : (ids : List String) → Keeps d₀ (deactivate_users e ids)
  unfolding deactivate_users
  deactivate_users-Keeps [] = Triple-pure _ (λ d k. k)
  deactivate_users-Keeps (i ∷ is) =
      Triple-bind _ _
        (Triple-with_tx {Y = Anything} e _ (λ d k. k) (λ _ d k. k)
          (λ started.
            Triple-exec e (λ d k. tt) _ (λ d k. update_activity-IsKept d k _ false started)))
        λ _. Triple-query e (λ d k. k) _ (λ d k. k)
