-- ===== src/Effects/Opening.antt =====
-- What the inserts of `CreatePullRequest` ask of the tables.
use pr_reviewer_service.Prelude.{
  ℕ, ◌+◌, ◌≤◌, String, ◌≡◌, refl, true, false, ◌&&◌, List, [], ◌∷◌, arith, ◌==◌, eq_refl, is_some,
  any_of, count_if, count, count_if_mono, any_of-count, Bool-cases, inl, inr,
}
use pr_reviewer_service.Domain.{PullRequest}
use pr_reviewer_service.Database.Schema.{
  UserRow, Db, find_user, find_pr, is_reviewer, reviews, assigned,
}
use pr_reviewer_service.Database.Statements.{done, insert_reviewer, insert_event}
use pr_reviewer_service.Database.Queries.{eligible}
use pr_reviewer_service.Integrity.Invariant.{pair_count}
use pr_reviewer_service.Repository.PullRequests.{reviewers_batch, new_row}
use pr_reviewer_service.Effects.Choice.{Chosen}

-- The primary key of the users.
abbrev pub UniqueUsers : Db → Type 0
UniqueUsers d = (u : String) → count_if (λ x. x.user_id == u) d.users ≤ 1

-- `rs` may be inserted as reviewers of `p`.
pub record Insertable (p : String) (rs : List String) (d : Db) : Type 0 where
  pub pr_known : is_some (find_pr p d.prs) ≡ true
  pub users_known : (s : String) → is_some (find_user s d.users) ≡ false → count s rs ≡ 0
  pub no_duplicate : (s : String) → pair_count p s d.reviewers + count s rs ≤ 1

module _ (t : ℕ) (p source : String) where
  not_yet :
      (r : String) (rs : List String) (d : Db)
      → Insertable p (r ∷ rs) d
      → is_reviewer p r d.reviewers ≡ false
  unfolding is_reviewer count_if
  not_yet r rs d h = elim (Bool-cases (any_of (reviews p r) d.reviewers)) [
    | inr n ↦ n
    | inl y ↦
        absurd
          (ground (arith, any_of-count (reviews p r) d.reviewers y, h.no_duplicate r, eq_refl r))
  ]

  somebody :
      (r : String) (rs : List String) (d : Db)
      → Insertable p (r ∷ rs) d
      → is_some (find_user r d.users) ≡ true
  unfolding count_if
  somebody r rs d h = elim (Bool-cases (is_some (find_user r d.users))) [
    | inl y ↦ y
    | inr n ↦ absurd (ground (arith, h.users_known r n, eq_refl r))
  ]

  -- The tables with a reviewer more, and with the event.
  abbrev with_reviewer : String → Db → Db
  with_reviewer r d = record d {
    reviewers = record { pull_request_id = p; reviewer_id = r; assigned_at = t } ∷ d.reviewers;
  }

  abbrev with_both : String → Db → Db
  with_both r d = record (with_reviewer r d) {
    events =
        record {
          pull_request_id = p;
          reviewer_id = r;
          event_type = assigned;
          source = source;
          created_at = t;
        }
        ∷ d.events;
  }

  module _ (r : String) (rs : List String) (d : Db) (h : Insertable p (r ∷ rs) d) where
    rest_Insertable : Insertable p rs (with_both r d)
    unfolding count_if
    rest_Insertable = record {
      pr_known = h.pr_known;
      users_known = λ s n. ground (arith, h.users_known s n);
      no_duplicate = λ s. ground (arith, h.no_duplicate s, eq_refl p);
    }

    insert_reviewer-done : insert_reviewer t p r d ≡ done (with_reviewer r d)
    unfolding insert_reviewer
    insert_reviewer-done = rw (not_yet r rs d h, h.pr_known, somebody r rs d h) refl

    insert_event-done :
        insert_event t p r assigned source (with_reviewer r d) ≡ done (with_both r d)
    unfolding insert_event
    insert_event-done = rw (h.pr_known, somebody r rs d h) refl

  pub reviewers_batch-done :
      (rs : List String) (d : Db)
      → Insertable p rs d
      → (d' : Db) × (reviewers_batch t p rs source d ≡ done d') × (d'.prs ≡ d.prs)
  unfolding reviewers_batch
  reviewers_batch-done [] d h = (d, refl, refl)
  reviewers_batch-done (r ∷ rs) d h =
      let (d', all, same) = reviewers_batch-done rs (with_both r d) (rest_Insertable r rs d h) in
      (d', rw (insert_reviewer-done r rs d h, insert_event-done r rs d h) all, same)

pub find_user-counted :
    (s : String) (xs : List UserRow)
    → is_some (find_user s xs) ≡ false
    → count_if (λ x. x.user_id == s) xs ≡ 0
unfolding find_user count_if
find_user-counted s [] h = refl
find_user-counted s (x ∷ xs) h = elim (Bool-cases (x.user_id == s)) [
  | inl c ↦ absurd (ground (arith, rw c at h))
  | inr c ↦ let rest = find_user-counted s xs (rw c at h) in rw c (omega (arith, rest))
]

module _ (d₀ : Db) (author team : String) (ids : List String) (unique : UniqueUsers d₀)
    (chosen : Chosen d₀ author team ids) where
  chosen-le_users : (s : String) → count s ids ≤ count_if (λ x. x.user_id == s) d₀.users
  chosen-le_users s =
      let fewer : count_if (λ x. eligible team (author ∷ []) x && x.user_id == s) d₀.users
          ≤ count_if (λ x. x.user_id == s) d₀.users =
        count_if_mono _ _ d₀.users (λ x h. ground (arith, h)) in
      omega (arith, chosen.fit s, fewer)

  -- The reviewers that were picked may be inserted once the row of the pull request is there.
  pub chosen-Insertable :
      (pr : PullRequest) (t : ℕ)
      → ((s : String) → pair_count pr.id s d₀.reviewers ≡ 0)
      → Insertable pr.id ids (record d₀ { prs = new_row pr t ∷ d₀.prs })
  unfolding find_pr
  chosen-Insertable pr t none_yet = record {
    pr_known = ground (arith, eq_refl pr.id);
    users_known = λ s n. omega (arith, chosen-le_users s, find_user-counted s d₀.users n);
    no_duplicate = λ s. omega (arith, none_yet s, chosen-le_users s, unique s);
  }
