-- ===== src/Stability/Keys/Statements.antt =====
-- The statements that write keep the keys.
use pr_reviewer_service.Prelude.{
  ℕ, ◌≤◌, String, ◌≡◌, ap, ◌∙◌, Bool, ◌∷◌, map, arith, ◌==◌, eq_iff, is_some, count_if, all_of,
  all_of_mono, all_of-select, all_of-map, count_if-map, Bool-cases, inl, inr, if◌then◌else◌,
}
use pr_reviewer_service.Domain.{PrStatus}
use pr_reviewer_service.Database.Schema.{
  UserRow, PrRow, EventType, Db, has_team, find_user, find_pr, is_reviewer,
}
use pr_reviewer_service.Database.Statements.{
  insert_team, upsert_row, upsert_user, with_activity, update_activity, insert_pr, with_status,
  update_status, insert_reviewer, delete_reviewer, insert_event,
}
use pr_reviewer_service.Repository.Triple.{Succeeds}
use pr_reviewer_service.Integrity.Rows.{not-is_reviewer-count, pair_count-without}
use pr_reviewer_service.Effects.Opening.{find_user-counted}
use pr_reviewer_service.Stability.Keys.{IsKeyed}
use pr_reviewer_service.Stability.Keys.Known.{
  StayKnown, authors-more, reviewers-more, events-more, has_team-more, find_pr-more,
}
use pr_reviewer_service.Stability.Keys.Rows.{
  has_team-counted, find_pr-counted, find_user-upsert_row, count_if-upsert_row, all_of-upsert_row,
  find_user-map, find_pr-map, count_if-same,
}

module _ (d : Db) (k : IsKeyed d) where
  pub insert_team-IsKeyed : (now : ℕ) (t : String) → Succeeds IsKeyed (insert_team now t d)
  unfolding insert_team count_if
  insert_team-IsKeyed now t = elim (Bool-cases (has_team t d.teams)) [
    | inl there ↦ rw there tt
    | inr fresh ↦ rw fresh (record {
      team_key = λ s. ground (arith, k.team_key s, has_team-counted t d.teams fresh, eq_iff t s);
      user_key = k.user_key;
      pr_key = k.pr_key;
      reviewer_key = k.reviewer_key;
      user_team =
          all_of_mono _ _ d.users (λ x. has_team-more now t x.team_name d.teams) k.user_team;
      pr_author = k.pr_author;
      reviewer_known = k.reviewer_known;
      event_known = k.event_known;
    })
  ]

  upserted_key :
      (new : UserRow) (u : String) → count_if (λ x. x.user_id == u) (upsert_row new d.users) ≤ 1
  upserted_key new u = ground (
    arith,
    k.user_key u,
    count_if-upsert_row u new d.users,
    find_user-counted new.user_id d.users,
    eq_iff new.user_id u,
  )

  pub upsert_user-IsKeyed : (new : UserRow) → Succeeds IsKeyed (upsert_user new d)
  unfolding upsert_user
  upsert_user-IsKeyed new = elim (Bool-cases (has_team new.team_name d.teams)) [
    | inr missing ↦ rw missing tt
    | inl there ↦
        let more : StayKnown d.prs d.prs d.users (upsert_row new d.users) = record {
          pr = λ p h. h;
          user = λ u h. ground (arith, find_user-upsert_row u new d.users);
        } in
        rw there (record {
          team_key = k.team_key;
          user_key = upserted_key new;
          pr_key = k.pr_key;
          reviewer_key = k.reviewer_key;
          user_team = all_of-upsert_row (λ t. has_team t d.teams) new d.users there k.user_team;
          pr_author = authors-more more d.prs k.pr_author;
          reviewer_known = reviewers-more more d.reviewers k.reviewer_known;
          event_known = events-more more d.events k.event_known;
        })
  ]

  pub update_activity-IsKeyed :
      (chosen : String → Bool) (active : Bool) (now : ℕ)
      → IsKeyed (update_activity chosen active now d)
  unfolding update_activity
  update_activity-IsKeyed chosen active now =
      let f : UserRow → UserRow = λ x. if chosen x.user_id then with_activity active now x else x in
      let id : (x : UserRow) → (f x).user_id ≡ x.user_id = λ x. ground arith in
      let more : StayKnown d.prs d.prs d.users (map f d.users) = record {
        pr = λ p h. h;
        user = λ u h. find_user-map u f d.users id ∙ h;
      } in
      record {
        team_key = k.team_key;
        user_key = λ u. omega (
          arith,
          k.user_key u,
          count_if-map (λ x. x.user_id == u) f d.users,
          count_if-same (λ x. (f x).user_id == u) (λ x. x.user_id == u) d.users
              (λ x. ap (λ i. i == u) (id x)),
        );
        pr_key = k.pr_key;
        reviewer_key = k.reviewer_key;
        user_team =
            all_of-map (λ x. has_team x.team_name d.teams) f d.users
            ∙ all_of_mono _ _ d.users (λ x h. ground (arith, h)) k.user_team;
        pr_author = authors-more more d.prs k.pr_author;
        reviewer_known = reviewers-more more d.reviewers k.reviewer_known;
        event_known = events-more more d.events k.event_known;
      }

  pub insert_pr-IsKeyed : (new : PrRow) → Succeeds IsKeyed (insert_pr new d)
  unfolding insert_pr count_if all_of
  insert_pr-IsKeyed new = elim (Bool-cases (is_some (find_pr new.pull_request_id d.prs))) [
    | inl there ↦ rw there tt
    | inr fresh ↦ elim (Bool-cases (is_some (find_user new.author_id d.users))) [
      | inr unknown ↦ rw (fresh, unknown) tt
      | inl known ↦
          let more : StayKnown d.prs (new ∷ d.prs) d.users d.users = record {
            pr = λ p h. find_pr-more new p d.prs h;
            user = λ u h. h;
          } in
          rw (fresh, known)
            (record {
              team_key = k.team_key;
              user_key = k.user_key;
              pr_key = λ p. ground (
                arith,
                k.pr_key p,
                find_pr-counted new.pull_request_id d.prs fresh,
                eq_iff new.pull_request_id p,
              );
              reviewer_key = k.reviewer_key;
              user_team = k.user_team;
              pr_author = ground (arith, known, k.pr_author);
              reviewer_known = reviewers-more more d.reviewers k.reviewer_known;
              event_known = events-more more d.events k.event_known;
            })
    ]
  ]

  pub update_status-IsKeyed :
      (p : String) (s : PrStatus) (now : ℕ) → IsKeyed (update_status p s now d)
  unfolding update_status
  update_status-IsKeyed p s now =
      let f : PrRow → PrRow = λ x. if x.pull_request_id == p then with_status s now x else x in
      let id : (x : PrRow) → (f x).pull_request_id ≡ x.pull_request_id = λ x. ground arith in
      let more : StayKnown d.prs (map f d.prs) d.users d.users = record {
        pr = λ q h. find_pr-map q f d.prs id ∙ h;
        user = λ u h. h;
      } in
      record {
        team_key = k.team_key;
        user_key = k.user_key;
        pr_key = λ q. omega (
          arith,
          k.pr_key q,
          count_if-map (λ x. x.pull_request_id == q) f d.prs,
          count_if-same (λ x. (f x).pull_request_id == q) (λ x. x.pull_request_id == q) d.prs
              (λ x. ap (λ i. i == q) (id x)),
        );
        reviewer_key = k.reviewer_key;
        user_team = k.user_team;
        pr_author =
            all_of-map (λ x. is_some (find_user x.author_id d.users)) f d.prs
            ∙ all_of_mono _ _ d.prs (λ x h. ground (arith, h)) k.pr_author;
        reviewer_known = reviewers-more more d.reviewers k.reviewer_known;
        event_known = events-more more d.events k.event_known;
      }

  pub insert_reviewer-IsKeyed :
      (now : ℕ) (p r : String) → Succeeds IsKeyed (insert_reviewer now p r d)
  unfolding insert_reviewer count_if all_of
  insert_reviewer-IsKeyed now p r = elim (Bool-cases (is_reviewer p r d.reviewers)) [
    | inl there ↦ rw there tt
    | inr fresh ↦ elim (Bool-cases (is_some (find_pr p d.prs))) [
      | inr unknown ↦ rw (fresh, unknown) tt
      | inl known ↦ elim (Bool-cases (is_some (find_user r d.users))) [
        | inr nobody ↦ rw (fresh, known, nobody) tt
        | inl someone ↦
            rw (fresh, known, someone)
              (record {
                team_key = k.team_key;
                user_key = k.user_key;
                pr_key = k.pr_key;
                reviewer_key = λ q s. ground (
                  arith,
                  k.reviewer_key q s,
                  not-is_reviewer-count p r d.reviewers fresh,
                  eq_iff p q,
                  eq_iff r s,
                );
                user_team = k.user_team;
                pr_author = k.pr_author;
                reviewer_known = ground (arith, known, someone, k.reviewer_known);
                event_known = k.event_known;
              })
      ]
    ]
  ]

  pub delete_reviewer-IsKeyed : (p r : String) → IsKeyed (delete_reviewer p r d)
  unfolding delete_reviewer
  delete_reviewer-IsKeyed p r = record {
    team_key = k.team_key;
    user_key = k.user_key;
    pr_key = k.pr_key;
    reviewer_key =
        λ q s. ground (arith, pair_count-without p r q s d.reviewers, k.reviewer_key q s);
    user_team = k.user_team;
    pr_author = k.pr_author;
    reviewer_known = all_of-select _ _ d.reviewers k.reviewer_known;
    event_known = k.event_known;
  }

  pub insert_event-IsKeyed :
      (now : ℕ) (p r : String) (kind : EventType) (source : String)
      → Succeeds IsKeyed (insert_event now p r kind source d)
  unfolding insert_event all_of
  insert_event-IsKeyed now p r kind source = elim (Bool-cases (is_some (find_pr p d.prs))) [
    | inr unknown ↦ rw unknown tt
    | inl known ↦ elim (Bool-cases (is_some (find_user r d.users))) [
      | inr nobody ↦ rw (known, nobody) tt
      | inl someone ↦
          rw (known, someone)
            (record {
              team_key = k.team_key;
              user_key = k.user_key;
              pr_key = k.pr_key;
              reviewer_key = k.reviewer_key;
              user_team = k.user_team;
              pr_author = k.pr_author;
              reviewer_known = k.reviewer_known;
              event_known = ground (arith, known, someone, k.event_known);
            })
    ]
  ]
