-- ===== src/Integrity/Batches.antt =====
-- The writes of storage.go keep the invariant, each under what the code has checked before it.
use pr_reviewer_service.Prelude.{
  ℕ, suc, ◌+◌, ◌≤◌, String, ◌≡◌, true, false, some, List, [], ◌∷◌, arith, ◌==◌, eq_iff, eq_refl,
  is_some, count_if, count, length, Bool-cases, refl, ap, inl, inr,
}
use pr_reviewer_service.Domain.{merged, status_eq}
use pr_reviewer_service.Board.{Reach, next, joins, leaves}
use pr_reviewer_service.Database.Schema.{
  PrRow, ReviewerRow, EventType, assigned, unassigned, EventRow, Db, find_pr, find_user,
  is_reviewer,
}
use pr_reviewer_service.Database.Statements.{
  Outcome, done, refused, and_then, insert_reviewer, delete_reviewer, insert_event,
}
use pr_reviewer_service.Repository.PullRequests.{reviewers_batch, removal_batch}
use pr_reviewer_service.Repository.Triple.{Succeeds}
use pr_reviewer_service.Integrity.Invariant.{
  reviewer_count, pair_count, Consistent, Frozen, Kept, IsKept, board, view, card_of,
}
use pr_reviewer_service.Integrity.Rows.{
  is_reviewer-count, not-is_reviewer-count, without, pair_count-without, reviewer_count-without,
}

-- The audit event of a change on `p`.
abbrev pub event_row : ℕ → String → String → EventType → String → EventRow
event_row t p r kind source = record {
  pull_request_id = p;
  reviewer_id = r;
  event_type = kind;
  source = source;
  created_at = t;
}

abbrev pub reviewer_row : ℕ → String → String → ReviewerRow
reviewer_row t p r = record { pull_request_id = p; reviewer_id = r; assigned_at = t }

-- An open pull request `p` in tables that keep the invariant.
module _ {d₀ : Db} {prs : List PrRow} {reviewers : List ReviewerRow} {events : List EventRow}
    (k : Kept d₀ prs reviewers events) (p r : String) (row : PrRow)
    (found : find_pr p prs ≡ some row) (still_open : status_eq row.status merged ≡ false) where
  -- A pull request that was merged at the start is another one.
  not_frozen :
      (q : String) (old : PrRow)
      → find_pr q d₀.prs ≡ some old
      → old.status ≡ merged
      → (p == q) ≡ false
  not_frozen q old e m = ground (arith, k.frozen.same_row q old e m, eq_iff p q)

  removed-Consistent :
      (t : ℕ) (source : String)
      → pair_count p r reviewers ≡ 1
      → Consistent prs (without p r reviewers) (event_row t p r unassigned source ∷ events)
  unfolding count_if
  removed-Consistent t source one = record {
    no_self_review = λ q x e.
        ground (
          arith,
          pair_count-without p r q x.author_id reviewers,
          k.consistent.no_self_review q x e,
        );
    at_most_two =
        λ q. omega (arith, reviewer_count-without p r q reviewers, k.consistent.at_most_two q);
    no_stray =
        λ q e. omega (arith, reviewer_count-without p r q reviewers, k.consistent.no_stray q e);
    no_duplicate =
        λ q s. ground (arith, pair_count-without p r q s reviewers, k.consistent.no_duplicate q s);
    logged = λ q s. ground (
      arith,
      pair_count-without p r q s reviewers,
      k.consistent.logged q s,
      eq_iff p q,
      eq_iff r s,
    );
    stamped = k.consistent.stamped;
    author_named = k.consistent.author_named;
  }

  removed-Frozen : Frozen d₀.prs d₀.reviewers prs (without p r reviewers)
  removed-Frozen = record {
    same_row = k.frozen.same_row;
    same_reviewers = λ q old s e m. ground (
      arith,
      not_frozen q old e m,
      pair_count-without p r q s reviewers,
      k.frozen.same_reviewers q old s e m,
    );
  }

  added-Consistent :
      (t : ℕ) (source : String)
      → pair_count p r reviewers ≡ 0
      → reviewer_count p reviewers ≤ 1
      → (row.author_id == r) ≡ false
      → Consistent prs (reviewer_row t p r ∷ reviewers) (event_row t p r assigned source ∷ events)
  unfolding count_if
  added-Consistent t source fresh room other = record {
    no_self_review = λ q x e. ground (
      arith,
      k.consistent.no_self_review q x e,
      eq_iff p q,
      eq_iff r x.author_id,
      eq_iff row.author_id r,
    );
    at_most_two = λ q. ground (arith, k.consistent.at_most_two q, eq_iff p q);
    no_stray = λ q e. ground (arith, k.consistent.no_stray q e, eq_iff p q);
    no_duplicate = λ q s. ground (arith, k.consistent.no_duplicate q s, eq_iff p q, eq_iff r s);
    logged = λ q s. ground (arith, k.consistent.logged q s, eq_iff p q, eq_iff r s);
    stamped = k.consistent.stamped;
    author_named = k.consistent.author_named;
  }

  added-Frozen : (t : ℕ) → Frozen d₀.prs d₀.reviewers prs (reviewer_row t p r ∷ reviewers)
  unfolding count_if
  added-Frozen t = record {
    same_row = k.frozen.same_row;
    same_reviewers =
        λ q old s e m. ground (arith, not_frozen q old e m, k.frozen.same_reviewers q old s e m);
  }

  -- The same changes of the board.
  removed-Reach : pair_count p r reviewers ≡ 1 → Reach (view d₀) (board prs (without p r reviewers))
  removed-Reach one = next k.reached (
      leaves p r (record { author = row.author_id; is_merged = status_eq row.status merged })
        (ap card_of found) still_open one (record { card = λ q. refl })
        (record {
          reviews = λ q s. pair_count-without p r q s reviewers;
          total = λ q. ground (arith, reviewer_count-without p r q reviewers);
        }))

  added-Reach :
      (t : ℕ)
      → pair_count p r reviewers ≡ 0
      → reviewer_count p reviewers ≤ 1
      → (row.author_id == r) ≡ false
      → Reach (view d₀) (board prs (reviewer_row t p r ∷ reviewers))
  unfolding count_if
  added-Reach t fresh room other = next k.reached (
      joins p r (record { author = row.author_id; is_merged = status_eq row.status merged })
        (ap card_of found) still_open other fresh room (record { card = λ q. refl })
        (record { reviews = λ q s. ground arith; total = λ q. ground arith }))

-- The state between the two halves of a replacement: `p` is as it was read and has room.
pub record Vacant (d₀ : Db) (p : String) (row : PrRow) (d : Db) : Type 0 where
  pub kept : IsKept d₀ d
  pub found : find_pr p d.prs ≡ some row
  pub room : reviewer_count p d.reviewers ≤ 1

pub removal_batch-Vacant :
    {d₀ : Db} (d : Db) (t : ℕ) (p r source : String) (row : PrRow)
    → IsKept d₀ d
    → find_pr p d.prs ≡ some row
    → status_eq row.status merged ≡ false
    → is_reviewer p r d.reviewers ≡ true
    → Succeeds (Vacant d₀ p row) (removal_batch t p r source d)
unfolding removal_batch insert_event delete_reviewer
removal_batch-Vacant d t p r source row k found still_open there =
    let one : pair_count p r d.reviewers ≡ 1 =
      omega (arith, is_reviewer-count p r d.reviewers there, k.consistent.no_duplicate p r) in
    elim (Bool-cases (is_some (find_user r d.users))) [
      | inl known ↦
          rw (found, known)
            (record {
              kept = record {
                consistent = removed-Consistent k p r row found still_open t source one;
                frozen = removed-Frozen k p r row found still_open;
                reached = removed-Reach k p r row found still_open one;
              };
              found = found;
              room = ground (
                arith,
                reviewer_count-without p r p d.reviewers,
                k.consistent.at_most_two p,
                eq_refl p,
              );
            })
      | inr unknown ↦ rw (found, unknown) tt
    ]

-- The rule for `and_then`.
pub Succeeds-and_then :
    (Q R : Db → Type 0) (f : Db → Outcome) (o : Outcome)
    → Succeeds R o
    → ((d : Db) → R d → Succeeds Q (f d))
    → Succeeds Q (and_then o f)
Succeeds-and_then Q R f (done d) h k = k d h
Succeeds-and_then Q R f (refused x) h k = tt

pub Succeeds-weaken :
    {Q R : Db → Type 0} (o : Outcome) → Succeeds Q o → ((d : Db) → Q d → R d) → Succeeds R o
Succeeds-weaken (done d) h f = f d h
Succeeds-weaken (refused x) h f = tt

-- One more reviewer of an open pull request with room: the state after it.
pub record Added (d₀ : Db) (p : String) (row : PrRow) (d d' : Db) : Type 0 where
  pub kept : IsKept d₀ d'
  pub found : find_pr p d'.prs ≡ some row
  pub one_more : reviewer_count p d'.reviewers ≡ suc (reviewer_count p d.reviewers)

abbrev Inserted : Db → ℕ → String → String → PrRow → String → Db → Db → Type 0
Inserted d₀ t p source row r d d1 =
    Succeeds (Added d₀ p row d) (insert_event t p r assigned source d1)

module _ (d₀ : Db) (t : ℕ) (p source : String) (row : PrRow)
    (still_open : status_eq row.status merged ≡ false) (r : String) where
  insert_both-Added :
      (d : Db)
      → IsKept d₀ d
      → find_pr p d.prs ≡ some row
      → reviewer_count p d.reviewers ≤ 1
      → (row.author_id == r) ≡ false
      → Succeeds (Inserted d₀ t p source row r d) (insert_reviewer t p r d)
  unfolding insert_reviewer insert_event
  insert_both-Added d k found room other = elim (Bool-cases (is_reviewer p r d.reviewers)) [
    | inl there ↦ rw there tt
    | inr fresh ↦ elim (Bool-cases (is_some (find_user r d.users))) [
      | inl known ↦
          rw (fresh, found, known)
            (rw (found, known)
              (record {
                kept = record {
                  consistent =
                      added-Consistent k p r row found still_open t source
                        (not-is_reviewer-count p r d.reviewers fresh) room other;
                  frozen = added-Frozen k p r row found still_open t;
                  reached =
                      added-Reach k p r row found still_open t
                        (not-is_reviewer-count p r d.reviewers fresh) room other;
                };
                found = found;
                one_more = unfold count_if in ground (arith, eq_refl p);
              }))
      | inr unknown ↦ rw (fresh, found, unknown) tt
    ]
  ]

-- The batch of `insertReviewers` on an open pull request with room for all, none of them its
-- author.
pub reviewers_batch-IsKept :
    {d₀ : Db} (t : ℕ) (p source : String) (row : PrRow)
    → status_eq row.status merged ≡ false
    → (rs : List String) (d : Db) → IsKept d₀ d
    → find_pr p d.prs ≡ some row
    → reviewer_count p d.reviewers + length rs ≤ 2
    → count row.author_id rs ≡ 0
    → Succeeds (IsKept d₀) (reviewers_batch t p rs source d)
unfolding reviewers_batch
reviewers_batch-IsKept t p source row still_open [] d k found room others = k
reviewers_batch-IsKept {d₀} t p source row still_open (r ∷ rs) d k found room others =
    let other : (row.author_id == r) ≡ false =
      unfold count_if in ground (arith, eq_iff r row.author_id, eq_iff row.author_id r) in
    Succeeds-and_then (IsKept d₀) (Inserted d₀ t p source row r d) _ (insert_reviewer t p r d)
      (insert_both-Added d₀ t p source row still_open r d k found (omega arith) other)
      λ d1 h.
        Succeeds-and_then (IsKept d₀) (Added d₀ p row d) _ (insert_event t p r assigned source d1) h
          λ d2 a.
            reviewers_batch-IsKept t p source row still_open rs d2 a.kept a.found
              (omega (arith, a.one_more)) (unfold count_if in ground arith)
