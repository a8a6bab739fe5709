-- ===== src/Stability/History/Requests.antt =====
-- What lists of requests do not take back.
use pr_reviewer_service.Prelude.{
  ℕ, String, refl, ap, Bool, List, [], ◌∷◌, map, arith, ◌==◌, is_some, Bool-cases, inl, inr,
  if◌then◌else◌,
}
use pr_reviewer_service.Domain.{PrStatus}
use pr_reviewer_service.Database.Schema.{
  TeamRow, UserRow, PrRow, EventType, EventRow, Db, has_team, find_user, find_pr, is_reviewer,
}
use pr_reviewer_service.Database.Statements.{
  insert_team, upsert_row, upsert_user, with_activity, update_activity, insert_pr, with_status,
  update_status, insert_reviewer, delete_reviewer, insert_event,
}
use pr_reviewer_service.Repository.Monad.{World, Env, M}
use pr_reviewer_service.Repository.Triple.{Succeeds}
use pr_reviewer_service.Service.Deactivation.{MassDeactivateResult}
use pr_reviewer_service.Http.Router.{Request, serve_all}
use pr_reviewer_service.Integrity.Deactivation.{Manages}
use pr_reviewer_service.Stability.{Stable}
use pr_reviewer_service.Stability.Requests.{serve_all-Holds}
use pr_reviewer_service.Stability.History.{KeepsUsers, KeepsPrs, Extends}
use pr_reviewer_service.Stability.History.Rows.{
  Revised-same, KeepsUsers-next, KeepsPrs-next, upsert_row-KeepsUsers, map-KeepsUsers, map-KeepsPrs,
  insert-KeepsPrs, with_status-Revised,
}

module _ {d₀ : Db} (d : Db) (h : Extends d₀ d) where
  users-Extends : (ys : List UserRow) → KeepsUsers d.users ys → Extends d₀ (record d { users = ys })
  users-Extends ys k = record {
    teams = h.teams;
    users = KeepsUsers-next d₀.users d.users ys h.users k;
    prs = h.prs;
    events = h.events;
  }

  prs-Extends : (ys : List PrRow) → KeepsPrs d.prs ys → Extends d₀ (record d { prs = ys })
  prs-Extends ys k = record {
    teams = h.teams;
    users = h.users;
    prs = KeepsPrs-next d₀.prs d.prs ys h.prs k;
    events = h.events;
  }

  insert_team-Extends : (now : ℕ) (t : String) → Succeeds (Extends d₀) (insert_team now t d)
  unfolding insert_team
  insert_team-Extends now t = elim (Bool-cases (has_team t d.teams)) [
    | inl there ↦ rw there tt
    | inr fresh ↦ rw fresh (record {
      teams =
          let new : TeamRow = record { team_name = t; created_at = now } in
          (new ∷ h.teams.0, ap (λ rows. new ∷ rows) h.teams.1);
      users = h.users;
      prs = h.prs;
      events = h.events;
    })
  ]

  upsert_user-Extends : (new : UserRow) → Succeeds (Extends d₀) (upsert_user new d)
  unfolding upsert_user
  upsert_user-Extends new = elim (Bool-cases (has_team new.team_name d.teams)) [
    | inl there ↦
        rw there (users-Extends (upsert_row new d.users) (upsert_row-KeepsUsers new d.users))
    | inr missing ↦ rw missing tt
  ]

  update_activity-Extends :
      (chosen : String → Bool) (active : Bool) (now : ℕ)
      → Extends d₀ (update_activity chosen active now d)
  unfolding update_activity
  update_activity-Extends chosen active now =
      let f : UserRow → UserRow = λ x. if chosen x.user_id then with_activity active now x else x in
      users-Extends (map f d.users)
        (map-KeepsUsers f d.users (λ x. ground arith) (λ x. ground arith))

  insert_pr-Extends : (new : PrRow) → Succeeds (Extends d₀) (insert_pr new d)
  unfolding insert_pr
  insert_pr-Extends new = elim (Bool-cases (is_some (find_pr new.pull_request_id d.prs))) [
    | inl there ↦ rw there tt
    | inr fresh ↦ elim (Bool-cases (is_some (find_user new.author_id d.users))) [
      | inl known ↦ rw (fresh, known) (prs-Extends (new ∷ d.prs) (insert-KeepsPrs new d.prs fresh))
      | inr unknown ↦ rw (fresh, unknown) tt
    ]
  ]

  update_status-Extends :
      (p : String) (s : PrStatus) (now : ℕ) → Extends d₀ (update_status p s now d)
  unfolding update_status
  update_status-Extends p s now =
      let f : PrRow → PrRow = λ x. if x.pull_request_id == p then with_status s now x else x in
      prs-Extends (map f d.prs)
        (map-KeepsPrs f d.prs (λ x. ground arith) (with_status-Revised p s now))

  insert_reviewer-Extends :
      (now : ℕ) (p r : String) → Succeeds (Extends d₀) (insert_reviewer now p r d)
  unfolding insert_reviewer
  insert_reviewer-Extends now p r = elim (Bool-cases (is_reviewer p r d.reviewers)) [
    | inl there ↦ rw there tt
    | inr fresh ↦ elim (Bool-cases (is_some (find_pr p d.prs))) [
      | inr unknown ↦ rw (fresh, unknown) tt
      | inl known ↦ elim (Bool-cases (is_some (find_user r d.users))) [
        | inr nobody ↦ rw (fresh, known, nobody) tt
        | inl someone ↦
            rw (fresh, known, someone)
              (record { teams = h.teams; users = h.users; prs = h.prs; events = h.events })
      ]
    ]
  ]

  insert_event-Extends :
      (now : ℕ) (p r : String) (kind : EventType) (source : String)
      → Succeeds (Extends d₀) (insert_event now p r kind source d)
  unfolding insert_event
  insert_event-Extends now p r kind source = elim (Bool-cases (is_some (find_pr p d.prs))) [
    | inr unknown ↦ rw unknown tt
    | inl known ↦ elim (Bool-cases (is_some (find_user r d.users))) [
      | inr nobody ↦ rw (known, nobody) tt
      | inl someone ↦
          rw (known, someone)
            (record {
              teams = h.teams;
              users = h.users;
              prs = h.prs;
              events =
                  let new : EventRow = record {
                    pull_request_id = p;
                    reviewer_id = r;
                    event_type = kind;
                    source = source;
                    created_at = now;
                  } in
                  (new ∷ h.events.0, ap (λ rows. new ∷ rows) h.events.1);
            })
    ]
  ]

pub Stable-Extends : (d₀ : Db) → Stable (Extends d₀)
unfolding delete_reviewer
Stable-Extends d₀ = record {
  team = λ now t d h. insert_team-Extends d h now t;
  user = λ new d h. upsert_user-Extends d h new;
  activity = λ chosen active now d h. update_activity-Extends d h chosen active now;
  pull_request = λ row d h. insert_pr-Extends d h row;
  status = λ p s now d h. update_status-Extends d h p s now;
  reviewer = λ now p r d h. insert_reviewer-Extends d h now p r;
  removal = λ p r d h. record { teams = h.teams; users = h.users; prs = h.prs; events = h.events };
  event = λ now p r kind source d h. insert_event-Extends d h now p r kind source;
}

pub Extends-same : (d : Db) → Extends d d
Extends-same d = record {
  teams = ([], refl);
  users = λ u row found. (row, found, refl);
  prs = λ p row found. (row, found, Revised-same row);
  events = ([], refl);
}

-- However many requests are served, from any state, in whatever order and with whatever failures of
-- the database, the audit log and the table of teams only gain rows, a user who was there is there
-- with the time at which they were added, and a pull request that was there is there, with its name,
-- its author, its time of creation and, once it has one, its merge time.
pub serve_all-Extends :
    (e : Env) (do_tx : M MassDeactivateResult → M MassDeactivateResult)
    → Manages do_tx
    → (reqs : List Request) (w : World) → Extends w.db (serve_all e do_tx reqs w).db
serve_all-Extends e do_tx manager reqs w =
    serve_all-Holds (Stable-Extends w.db) e do_tx manager reqs w (Extends-same w.db)
