-- ===== src/Database/Statements.antt =====
-- The statements of internal/repository/storage.go and tx_storage.go that write, over the tables
-- of migrations/*.sql with their primary and foreign keys.

use pr_reviewer_service.Prelude.{
  ℕ, String, Bool, Option, none, some, List, [], ◌∷◌, map, not, ◌==◌, select, is_some,
  if◌then◌else◌,
}
use pr_reviewer_service.Domain.{PrStatus}
use pr_reviewer_service.Database.Schema.{
  UserRow, PrRow, EventType, Db, has_team, find_user, find_pr, reviews, is_reviewer,
}

-- What the driver reports. `fault` is any failure that lies outside the database's own rules: a
-- lost connection, a cancelled context, a deadline.
pub data SqlError : Type 0 where
  unique_violation foreign_key_violation no_rows : SqlError
  fault : ℕ → SqlError

-- The outcome of a statement that writes.
pub data Outcome : Type 0 where
  done : Db → Outcome
  refused : SqlError → Outcome

abbrev pub and_then : Outcome → (Db → Outcome) → Outcome
and_then (done d) f = f d
and_then (refused x) f = refused x

-- `INSERT INTO teams (team_name) VALUES ($1)`
unfoldable pub insert_team : ℕ → String → Db → Outcome
unfolding has_team
insert_team now t d =
    if has_team t d.teams
    then refused unique_violation
    else done (record d { teams = record { team_name = t; created_at = now } ∷ d.teams })

-- The row that `ON CONFLICT (user_id) DO UPDATE` leaves.
unfoldable pub overwrite : UserRow → UserRow → UserRow
overwrite new old = record old {
  username = new.username;
  team_name = new.team_name;
  is_active = new.is_active;
  updated_at = new.updated_at;
}

unfoldable pub upsert_row : UserRow → List UserRow → List UserRow
unfolding overwrite
upsert_row new [] = new ∷ []
upsert_row new (x ∷ xs) =
    if x.user_id == new.user_id then overwrite new x ∷ xs else x ∷ upsert_row new xs

-- `INSERT INTO users ... ON CONFLICT (user_id) DO UPDATE SET ...`
unfoldable pub upsert_user : UserRow → Db → Outcome
unfolding upsert_row has_team
upsert_user new d =
    if has_team new.team_name d.teams
    then done (record d { users = upsert_row new d.users })
    else refused foreign_key_violation

abbrev pub with_activity : Bool → ℕ → UserRow → UserRow
with_activity active now x = record x { is_active = active; updated_at = now }

-- `UPDATE users SET is_active=..., updated_at=... WHERE ...`
unfoldable pub update_activity : (String → Bool) → Bool → ℕ → Db → Db
update_activity chosen active now d = record d {
  users = map (λ x. if chosen x.user_id then with_activity active now x else x) d.users;
}

-- `INSERT INTO pull_requests ...`
unfoldable pub insert_pr : PrRow → Db → Outcome
unfolding find_pr find_user
insert_pr row d =
    if is_some (find_pr row.pull_request_id d.prs)
    then refused unique_violation
    else if is_some (find_user row.author_id d.users)
    then done (record d { prs = row ∷ d.prs })
    else refused foreign_key_violation

-- `COALESCE(merged_at, NOW())`
abbrev pub coalesce : Option ℕ → ℕ → Option ℕ
coalesce none now = some now
coalesce (some t) now = some t

abbrev pub with_status : PrStatus → ℕ → PrRow → PrRow
with_status s now x = record x { status = s; merged_at = coalesce x.merged_at now }

-- `UPDATE pull_requests SET status=$2, merged_at=COALESCE(merged_at, NOW()) WHERE pull_request_id=$1`
unfoldable pub update_status : String → PrStatus → ℕ → Db → Db
update_status p s now d = record d {
  prs = map (λ x. if x.pull_request_id == p then with_status s now x else x) d.prs;
}

-- `INSERT INTO pull_request_reviewers ...`
unfoldable pub insert_reviewer : ℕ → String → String → Db → Outcome
unfolding is_reviewer find_pr find_user
insert_reviewer now p r d =
    if is_reviewer p r d.reviewers
    then refused unique_violation
    else if is_some (find_pr p d.prs)
    then (if is_some (find_user r d.users)
        then done (record d {
          reviewers =
              record { pull_request_id = p; reviewer_id = r; assigned_at = now } ∷ d.reviewers;
        })
        else refused foreign_key_violation)
    else refused foreign_key_violation

-- `DELETE FROM pull_request_reviewers WHERE pull_request_id=$1 AND reviewer_id=$2`
unfoldable pub delete_reviewer : String → String → Db → Db
delete_reviewer p r d = record d { reviewers = select (λ x. not (reviews p r x)) d.reviewers }

-- `INSERT INTO review_assignment_events ...`
unfoldable pub insert_event : ℕ → String → String → EventType → String → Db → Outcome
unfolding find_pr find_user
insert_event now p r kind source d =
    if is_some (find_pr p d.prs)
    then (if is_some (find_user r d.users)
        then done (record d {
          events =
              record {
                pull_request_id = p;
                reviewer_id = r;
                event_type = kind;
                source = source;
                created_at = now;
              }
              ∷ d.events;
        })
        else refused foreign_key_violation)
    else refused foreign_key_violation
