-- ===== src/Repository/Teams.antt =====
-- The team operations of internal/repository/storage.go (`Storage`) and of
-- internal/repository/tx_storage.go (`txStorage`, in the module Tx).
use pr_reviewer_service.Prelude.{ℕ, String, not, List, [], ◌∷◌}
use pr_reviewer_service.Domain.{User, Team, err_team_exists, err_team_not_found}
use pr_reviewer_service.Database.Schema.{UserRow, has_team}
use pr_reviewer_service.Database.Statements.{insert_team, upsert_user}
use pr_reviewer_service.Database.Queries.{team_members}
use pr_reviewer_service.Repository.Monad.{
  execute_query, scan_result, send, domain, Env, M, pure, raise_if, on_error, wrap, now, to_sql,
  query, exec, ◌>>=◌, ◌>>◌,
}
use pr_reviewer_service.Repository.Transaction.{with_tx}

-- `member.TeamName = team.Name`, and the values of the insert.
abbrev pub member_row : String → ℕ → User → UserRow
member_row t now m = record {
  user_id = m.id;
  username = m.username;
  team_name = t;
  is_active = m.is_active;
  created_at = now;
  updated_at = now;
}

module _ (e : Env) where
  -- The existence check is made only where no member was read.
  unfoldable pub check_team : String → List User → M (Unit {0})
  check_team t [] = do
    to_sql e
    found ← on_error (wrap execute_query) (query e (λ d. has_team t d.teams))
    raise_if (not found) (domain err_team_not_found)
  check_team t (m ∷ ms) = pure tt

  -- `rows.Scan`, once for each row.
  unfoldable pub scan_members : List User → M (Unit {0})
  scan_members [] = pure tt
  scan_members (m ∷ ms) = on_error (wrap scan_result) (send e) >> scan_members ms

  -- The call after the loop is `rows.Err`, whose error is not wrapped.
  unfoldable pub get_team : String → M Team
  get_team t = do
    to_sql e
    members ←
        on_error (wrap execute_query)
          (query e (λ d. team_members e.text_le t (e.scan_users d.users)))
    scan_members members
    send e
    check_team t members
    pure (record { name = t; members = members })

  -- The loop over the members.
  unfoldable pub upsert_members : String → ℕ → List User → M (Unit {0})
  upsert_members t time [] = pure tt
  upsert_members t time (m ∷ ms) = do
    to_sql e
    on_error (wrap execute_query) (exec e (upsert_user (member_row t time m)))
    upsert_members t time ms

  unfoldable pub create_team_body : Team → ℕ → M (Unit {0})
  create_team_body team started = do
    to_sql e
    exists ← on_error (wrap execute_query) (query e (λ d. has_team team.name d.teams))
    raise_if exists (domain err_team_exists)
    to_sql e
    on_error (wrap execute_query) (exec e (insert_team started team.name))
    time ← now e
    upsert_members team.name time team.members

  unfoldable pub create_team : Team → M Team
  create_team team = do with_tx e (create_team_body team); get_team team.name
