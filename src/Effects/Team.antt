-- ===== src/Effects/Team.antt =====
-- The effect of `CreateTeam`: the team, and the users that it overwrites or adds.
use mathlib.Core.Option
use pr_reviewer_service.Prelude.{
  ℕ, String, ◌≡◌, refl, sym, ◌∙◌, ap, ◌⊎◌, inl, inr, false, Option, some, List, [], ◌∷◌, arith,
  ◌==◌, eq_iff, if◌then◌else◌, Bool-cases,
}
use pr_reviewer_service.Domain.{User, Team, err_team_exists}
use pr_reviewer_service.Validation.{validate_team_name, validate_user_id}
use pr_reviewer_service.Database.Schema.{UserRow, TeamRow, Db, has_team, find_user}
use pr_reviewer_service.Database.Statements.{insert_team, upsert_user, upsert_row, overwrite}
use pr_reviewer_service.Database.Queries.{user_of}
use pr_reviewer_service.Repository.Monad.{World, Env, domain, wrap, execute_query}
use pr_reviewer_service.Repository.Triple.{
  Triple, Triple-pure, Triple-bind, Triple-on_error, Triple-raise_if, Triple-query, Triple-exec,
  Triple-to_sql, Triple-with_tx, Triple-weaken, Triple-given, Triple-now, Triple-update_metrics,
  After, Succeeds,
}
use pr_reviewer_service.Repository.Users.{read_user}
use pr_reviewer_service.Repository.Teams
use pr_reviewer_service.Repository.Teams.{member_row, upsert_members, create_team_body}
use pr_reviewer_service.Service.Basic
use pr_reviewer_service.Service.Basic.{check_members}
use pr_reviewer_service.Integrity.Reads.{get_team_reads}
use pr_reviewer_service.Integrity.Candidates.{Triple-check}

-- The user `u` once the members have been written, one after the other, over `before`.
abbrev pub written_user : String → String → List User → Option User → Option User
written_user t u [] before = before
written_user t u (m ∷ ms) before =
    written_user t u ms (if m.id == u then some (record m { team_name = t }) else before)

find_user-upsert_row :
    (u : String) (new : UserRow) (rows : List UserRow)
    → Option.map user_of (find_user u (upsert_row new rows))
      ≡ (if new.user_id == u then some (user_of new) else Option.map user_of (find_user u rows))
unfolding find_user upsert_row overwrite
find_user-upsert_row u new [] = ground arith
find_user-upsert_row u new (x ∷ rows) = ground (
  arith,
  find_user-upsert_row u new rows,
  eq_iff x.user_id new.user_id,
  eq_iff x.user_id u,
  eq_iff new.user_id u,
)

-- The tables besides those of teams and users are as they were.
pub record SameRequests (d₀ d : Db) : Type 0 where
  pub prs : d.prs ≡ d₀.prs
  pub reviewers : d.reviewers ≡ d₀.reviewers
  pub events : d.events ≡ d₀.events

-- The members `ms` of `t` were written into the users of `d₀`.
pub record Written (d₀ : Db) (t : String) (ms : List User) (d : Db) : Type 0 where
  pub teams : d.teams ≡ d₀.teams
  pub users : (u : String) → read_user u d ≡ written_user t u ms (read_user u d₀)
  pub rest : SameRequests d₀ d

Written-more :
    (d d1 d2 : Db) (t : String) (m : User) (ms : List User)
    → Written d t (m ∷ []) d1
    → Written d1 t ms d2
    → Written d t (m ∷ ms) d2
Written-more d d1 d2 t m ms h k = record {
  teams = k.teams ∙ h.teams;
  users = λ u. k.users u ∙ ap (written_user t u ms) (h.users u);
  rest = record {
    prs = k.rest.prs ∙ h.rest.prs;
    reviewers = k.rest.reviewers ∙ h.rest.reviewers;
    events = k.rest.events ∙ h.rest.events;
  };
}

upsert_user-Written :
    (t : String) (time : ℕ) (m : User) (d : Db)
    → Succeeds (Written d t (m ∷ [])) (upsert_user (member_row t time m) d)
unfolding upsert_user
upsert_user-Written t time m d = elim (Bool-cases (has_team t d.teams)) [
  | inl there ↦ rw there (record {
    teams = refl;
    users = λ u. find_user-upsert_row u (member_row t time m) d.users;
    rest = record { prs = refl; reviewers = refl; events = refl };
  })
  | inr missing ↦ rw missing tt
]

pub record CreatedTeam (d₀ : Db) (team : Team) (d : Db) : Type 0 where
  pub was_free : has_team team.name d₀.teams ≡ false
  pub row : TeamRow
  pub named : row.team_name ≡ team.name
  pub teams : d.teams ≡ row ∷ d₀.teams
  pub users : (u : String) → read_user u d ≡ written_user team.name u team.members (read_user u d₀)
  pub rest : SameRequests d₀ d

-- The row of the new team is there.
abbrev Begun : Db → Team → ℕ → Db → Type 0
Begun d₀ team time d =
    (has_team team.name d₀.teams ≡ false)
    × (d ≡ record d₀ { teams = record { team_name = team.name; created_at = time } ∷ d₀.teams })

insert_team-Begun :
    (d₀ : Db) (team : Team) (time : ℕ)
    → has_team team.name d₀.teams ≡ false
    → Succeeds (Begun d₀ team time) (insert_team time team.name d₀)
unfolding insert_team
insert_team-Begun d₀ team time free = rw free (free, refl)

Written-CreatedTeam :
    (d₀ : Db) (team : Team) (time : ℕ) (d1 d : Db)
    → Begun d₀ team time d1
    → Written d1 team.name team.members d
    → CreatedTeam d₀ team d
Written-CreatedTeam d₀ team time d1 d (free, same) k = record {
  was_free = free;
  row = record { team_name = team.name; created_at = time };
  named = refl;
  teams = k.teams ∙ ap (λ (x : Db). x.teams) same;
  users =
      λ u. k.users u ∙ ap (λ (x : Db). written_user team.name u team.members (read_user u x)) same;
  rest = record {
    prs = k.rest.prs ∙ ap (λ (x : Db). x.prs) same;
    reviewers = k.rest.reviewers ∙ ap (λ (x : Db). x.reviewers) same;
    events = k.rest.events ∙ ap (λ (x : Db). x.events) same;
  };
}

module _ (e : Env) where
  upsert_members-Written :
      (t : String) (time : ℕ) (ms : List User) (d1 : Db)
      → Triple (λ d. d ≡ d1) (upsert_members e t time ms) (λ _. Written d1 t ms) (λ d. Unit)
  unfolding upsert_members
  upsert_members-Written t time [] d1 = Triple-pure tt λ d same. rw same (record {
    teams = refl;
    users = λ u. refl;
    rest = record { prs = refl; reviewers = refl; events = refl };
  })
  upsert_members-Written t time (m ∷ ms) d1 = Triple-bind _ _ (Triple-to_sql e (λ d h. tt)) λ _.
      Triple-bind _ _
        (Triple-on_error (wrap execute_query) _ (
          Triple-exec e (λ d h. tt) {Q = Written d1 t (m ∷ [])} (upsert_user (member_row t time m))
            (λ d same. rw same (upsert_user-Written t time m d1))))
        λ _. record {
          at = λ w h.
              (Triple-weaken (upsert_members e t time ms)
                  (λ _ d k. Written-more d1 w.db d t m ms h k)
                  (upsert_members-Written t time ms w.db)).at
                w refl;
        }

module _ (e : Env) (d₀ : Db) (team : Team) where
  create_team_body_triple :
      (started : ℕ)
      → Triple
          (λ d. d ≡ d₀)
          (create_team_body e team started)
          (λ _. CreatedTeam d₀ team)
          (λ d. Unit)
  unfolding create_team_body
  create_team_body_triple started = Triple-bind _ _ (Triple-to_sql e (λ d h. tt)) λ _.
      Triple-bind _ _
        (Triple-on_error (wrap execute_query) _ (
          Triple-query e (λ d h. tt) {Q = λ b d. (b ≡ has_team team.name d₀.teams) × (d ≡ d₀)} _
            (λ d same. (ap (λ (x : Db). has_team team.name x.teams) same, same))))
        λ exists. Triple-given _ λ read.
          Triple-bind _ _
            (Triple-raise_if {Q = λ d. (exists ≡ false) × (d ≡ d₀)} exists (domain err_team_exists)
              (λ d h. tt) (λ d no same. (no, same)))
            λ _. Triple-given _ λ no. Triple-bind _ _ (Triple-to_sql e (λ d h. tt)) λ _.
              Triple-bind _ _
                (Triple-on_error (wrap execute_query) _ (
                  Triple-exec e (λ d h. tt) {Q = Begun d₀ team started}
                    (insert_team started team.name)
                    (λ d same. rw same (insert_team-Begun d₀ team started (sym read ∙ no)))))
                λ _. Triple-bind _ _ (Triple-now e) λ time. record {
                  at = λ w h.
                      (Triple-weaken (upsert_members e team.name time team.members)
                          (λ _ d k. Written-CreatedTeam d₀ team started w.db d h k)
                          (upsert_members-Written e team.name time team.members w.db)).at
                        w refl;
                }

  check_members_triple :
      (ms : List User)
      → Triple
          (λ d. d ≡ d₀)
          (check_members ms)
          (λ _ d. d ≡ d₀)
          (λ d. (d ≡ d₀) ⊎ CreatedTeam d₀ team d)
  unfolding check_members
  check_members_triple [] = Triple-pure tt (λ d h. h)
  check_members_triple (m ∷ ms) =
      Triple-bind _ _ (Triple-check (validate_user_id m.id) (λ d h. inl h))
        λ _. Triple-given _ λ valid. check_members_triple ms

  create_team_effect :
      Triple
        (λ d. d ≡ d₀)
        (Basic.create_team e team)
        (λ res. CreatedTeam d₀ team)
        (λ d. (d ≡ d₀) ⊎ CreatedTeam d₀ team d)
  unfolding Basic.create_team Teams.create_team
  create_team_effect =
      Triple-bind _ _ (Triple-check (validate_team_name team.name) (λ d h. inl h)) λ _.
        Triple-given _ λ valid. Triple-bind _ _ (check_members_triple team.members) λ _.
          Triple-bind _ _
            (Triple-bind _ _
              (Triple-with_tx {Y = λ d. Unit {0}} e _ (λ d h. inl h) (λ _ d h. inr h)
                create_team_body_triple)
              λ _. get_team_reads e (λ d h. inr h) team.name)
            λ created. Triple-bind _ _ (Triple-update_metrics _) λ _. Triple-pure _ (λ d h. h)

-- `CreateTeam` from any state. On success the team was not there and is now; a user who is named
-- among the members has the name and activity of the last entry with that id, and the new team,
-- whether or not there was such a user; every other user is as before, and so are the pull requests,
-- the reviewers and the audit log. On an error nothing has changed or all of this is there. There is
-- no panic.
pub create_team_outcome :
    (e : Env) (team : Team) (w : World)
    → let (r, w') = Basic.create_team e team w in
      After (λ res. CreatedTeam w.db team) (λ d. (d ≡ w.db) ⊎ CreatedTeam w.db team d) r w'.db
create_team_outcome e team w = (create_team_effect e w.db team).at w refl
