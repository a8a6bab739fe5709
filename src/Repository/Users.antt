-- ===== src/Repository/Users.antt =====
-- The user operations of internal/repository/storage.go.
use pr_reviewer_service.Prelude.{
  ℕ, String, Bool, false, not, Option, List, [], ◌∷◌, ◌==◌, str_mem, is_some,
}
use mathlib.Core.Option
use pr_reviewer_service.Domain.{User, err_user_not_found}
use pr_reviewer_service.Database.Schema.{Db, find_user}
use pr_reviewer_service.Database.Statements.{update_activity, done}
use pr_reviewer_service.Database.Queries.{user_of, active_members, users_in}
use pr_reviewer_service.Repository.Monad.{
  execute_query, scan_result, domain, Env, M, pure, raise_if, on_error, wrap, not_found, now,
  to_sql, query, query_row, exec, ◌>>=◌, ◌>>◌,
}
use pr_reviewer_service.Repository.Transaction.{with_tx}

abbrev pub read_user : String → Db → Option User
read_user u d = Option.map user_of (find_user u d.users)

module _ (e : Env) where
  unfoldable pub get_user_by_id : String → M User
  get_user_by_id u = do
    to_sql e
    on_error (not_found err_user_not_found (wrap scan_result)) (query_row e (read_user u))

  -- `RowsAffected() == 0` when no row has the key.
  unfoldable pub update_user_activity : String → Bool → ℕ → M Bool
  update_user_activity u active time w =
      let known = is_some (find_user u w.db.users) in
      (exec e (λ d. done (update_activity (λ x. x == u) active time d)) >> pure known) w

  unfoldable pub set_user_activity : String → Bool → M User
  set_user_activity u active = do
    time ← now e
    to_sql e
    affected ← on_error (wrap execute_query) (update_user_activity u active time)
    raise_if (not affected) (domain err_user_not_found)
    get_user_by_id u

  unfoldable pub list_active_team_members : String → List String → M (List User)
  list_active_team_members t exclude =
      query e (λ d. active_members t exclude (e.scan_users d.users))

  unfoldable pub deactivate_users : List String → M (List User)
  deactivate_users [] = pure []
  deactivate_users (i ∷ is) =
      with_tx e
        (λ started. exec e (λ d. done (update_activity (λ x. str_mem x (i ∷ is)) false started d)))
      >> query e (λ d. users_in (i ∷ is) (e.scan_users d.users))
