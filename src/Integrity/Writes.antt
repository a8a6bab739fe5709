-- ===== src/Integrity/Writes.antt =====
-- The single statements that write keep the invariant: a new pull request, a merge, and the writes
-- to the tables of teams and users.
use pr_reviewer_service.Prelude.{
  ℕ, String, ◌≡◌, refl, ap, eq_refl, Bool, true, false, Option, none, some, List, ◌∷◌, map, sym,
  ◌∙◌, arith, ◌==◌, eq_iff, is_some, if◌then◌else◌, Bool-cases, inl, inr,
}
use pr_reviewer_service.Domain.{PrStatus, opened, merged, status_eq}
use pr_reviewer_service.Board.{Reach, next, opens, merges}
use pr_reviewer_service.Picker.{is_blank}
use pr_reviewer_service.Database.Schema.{
  UserRow, PrRow, ReviewerRow, EventRow, Db, find_pr, find_user, has_team,
}
use pr_reviewer_service.Database.Statements.{
  insert_team, upsert_user, update_activity, insert_pr, update_status, with_status,
}
use pr_reviewer_service.Repository.Triple.{Succeeds}
use pr_reviewer_service.Integrity.Invariant.{
  pair_count, Consistent, Frozen, Kept, IsKept, board, view, card_of,
}
use pr_reviewer_service.Integrity.Rows.{
  pair-le-reviewer_count, status_written, rewritten, find_pr-status_written,
}

-- A pull request under a new key, by a named author, open and with no merge time.
module _ {d₀ : Db} {prs : List PrRow} {reviewers : List ReviewerRow} {events : List EventRow}
    (k : Kept d₀ prs reviewers events) (new : PrRow)
    (fresh : find_pr new.pull_request_id prs ≡ none) (is_open : new.status ≡ opened)
    (no_time : new.merged_at ≡ none) (named : is_blank new.author_id ≡ false) where
  no_reviewers : (p r : String) → (new.pull_request_id == p) ≡ true → pair_count p r reviewers ≡ 0
  no_reviewers p r same = ground (
    arith,
    eq_iff new.pull_request_id p,
    k.consistent.no_stray p,
    pair-le-reviewer_count p r reviewers,
  )

  created-Consistent : Consistent (new ∷ prs) reviewers events
  unfolding find_pr
  created-Consistent = record {
    no_self_review =
        λ p row e. ground (arith, k.consistent.no_self_review p row, no_reviewers p row.author_id);
    at_most_two = k.consistent.at_most_two;
    no_stray = λ p e. ground (arith, k.consistent.no_stray p);
    no_duplicate = k.consistent.no_duplicate;
    logged = k.consistent.logged;
    stamped = λ p row e. ground (arith, k.consistent.stamped p row);
    author_named = λ p row e. ground (arith, k.consistent.author_named p row);
  }

  created-Frozen : Frozen d₀.prs d₀.reviewers (new ∷ prs) reviewers
  unfolding find_pr
  created-Frozen = record {
    same_row =
        λ p row e m. ground (arith, eq_iff new.pull_request_id p, k.frozen.same_row p row e m);
    same_reviewers = k.frozen.same_reviewers;
  }

  created-Reach : Reach (view d₀) (board (new ∷ prs) reviewers)
  unfolding find_pr
  created-Reach = next k.reached (
      opens new.pull_request_id new.author_id (ap card_of fresh)
        (k.consistent.no_stray new.pull_request_id fresh)
        (λ r. no_reviewers new.pull_request_id r (eq_refl new.pull_request_id))
        (record { card = λ q. ground (arith, is_open) })
        (record { reviews = λ q s. refl; total = λ q. refl }))

  pub created-Kept : Kept d₀ (new ∷ prs) reviewers events
  created-Kept = record {
    consistent = created-Consistent;
    frozen = created-Frozen;
    reached = created-Reach;
  }

-- What a row was before the UPDATE of a merge.
rewritten_inv :
    (p q : String) (s : PrStatus) (now : ℕ) (o : Option PrRow) (row : PrRow)
    → rewritten p q s now o ≡ some row
    → (old : PrRow) × (o ≡ some old) × (row ≡ (if p == q then with_status s now old else old))
rewritten_inv p q s now none row e = ground arith
rewritten_inv p q s now (some old) row e = (old, refl, ground arith)

card_of-rewritten :
    (p q : String) (now : ℕ) (o : Option PrRow)
    → (p == q) ≡ false
    → card_of (rewritten p q merged now o) ≡ card_of o
card_of-rewritten p q now none other = refl
card_of-rewritten p q now (some row) other = rw other refl

-- The UPDATE of a merge, on any row.
module _ {d₀ : Db} {prs : List PrRow} {reviewers : List ReviewerRow} {events : List EventRow}
    (k : Kept d₀ prs reviewers events) (p : String) (now : ℕ) where
  merged_inv :
      (q : String) (row : PrRow)
      → find_pr q (map (status_written p merged now) prs) ≡ some row
      → (old : PrRow) × (find_pr q prs ≡ some old)
        × (row ≡ (if p == q then with_status merged now old else old))
  merged_inv q row e =
      rewritten_inv p q merged now (find_pr q prs) row
        (sym (find_pr-status_written p q merged now prs) ∙ e)

  merged_none :
      (q : String) → find_pr q (map (status_written p merged now) prs) ≡ none → find_pr q prs ≡ none
  merged_none q e = ground (arith, find_pr-status_written p q merged now prs)

  merged-Consistent : Consistent (map (status_written p merged now) prs) reviewers events
  merged-Consistent = record {
    no_self_review = λ q row e.
        let (old, found, written) = merged_inv q row e in
        ground (arith, k.consistent.no_self_review q old found);
    at_most_two = k.consistent.at_most_two;
    no_stray = λ q e. k.consistent.no_stray q (merged_none q e);
    no_duplicate = k.consistent.no_duplicate;
    logged = k.consistent.logged;
    stamped = λ q row e.
        let (old, found, written) = merged_inv q row e in
        ground (arith, k.consistent.stamped q old found);
    author_named = λ q row e.
        let (old, found, written) = merged_inv q row e in
        ground (arith, k.consistent.author_named q old found);
  }

  -- A row that is merged and stamped is written as it was.
  with_status-merged :
      (old : PrRow)
      → old.status ≡ merged
      → is_some old.merged_at ≡ true
      → with_status merged now old ≡ old
  with_status-merged old m stamp = ground arith

  merged-Frozen : Frozen d₀.prs d₀.reviewers (map (status_written p merged now) prs) reviewers
  merged-Frozen = record {
    same_row = λ q old e m.
        let found = k.frozen.same_row q old e m in
        ground (
          arith,
          find_pr-status_written p q merged now prs,
          k.consistent.stamped q old found,
          with_status-merged old m,
        );
    same_reviewers = k.frozen.same_reviewers;
  }

  card-rewritten :
      (q : String) (row : PrRow)
      → find_pr p prs ≡ some row
      → card_of (find_pr q (map (status_written p merged now) prs)) ≡ (
          if p == q
          then some (record { author = row.author_id; is_merged = true })
          else card_of (find_pr q prs))
  card-rewritten q row found = elim (Bool-cases (p == q)) [
    | inl same ↦ ground (arith, find_pr-status_written p q merged now prs, eq_iff p q, found, same)
    | inr other ↦
        ap card_of (find_pr-status_written p q merged now prs)
        ∙ card_of-rewritten p q now (find_pr q prs) other
        ∙ rw other refl
  ]

  merged-Reach :
      (row : PrRow)
      → find_pr p prs ≡ some row
      → Reach (view d₀) (board (map (status_written p merged now) prs) reviewers)
  merged-Reach row found = next k.reached (
      merges p (record { author = row.author_id; is_merged = status_eq row.status merged })
        (ap card_of found) (record { card = λ q. card-rewritten q row found })
        (record { reviews = λ q s. refl; total = λ q. refl }))

  pub merged-Kept :
      (row : PrRow)
      → find_pr p prs ≡ some row
      → Kept d₀ (map (status_written p merged now) prs) reviewers events
  merged-Kept row found = record {
    consistent = merged-Consistent;
    frozen = merged-Frozen;
    reached = merged-Reach row found;
  }

-- The statements, with what the database checks.
module _ {d₀ : Db} (d : Db) (k : IsKept d₀ d) where
  pub insert_pr-IsKept :
      (new : PrRow)
      → find_pr new.pull_request_id d.prs ≡ none
      → new.status ≡ opened
      → new.merged_at ≡ none
      → is_blank new.author_id ≡ false
      → Succeeds
          (λ d'. IsKept d₀ d' × (d'.prs ≡ new ∷ d.prs) × (d'.reviewers ≡ d.reviewers))
          (insert_pr new d)
  unfolding insert_pr
  insert_pr-IsKept new fresh o t named =
      elim (Bool-cases (is_some (find_user new.author_id d.users))) [
        | inl known ↦ rw (fresh, known) (created-Kept k new fresh o t named, refl, refl)
        | inr unknown ↦ rw (fresh, unknown) tt
      ]

  pub update_status-IsKept :
      (p : String) (now : ℕ) (row : PrRow)
      → find_pr p d.prs ≡ some row
      → IsKept d₀ (update_status p merged now d)
  unfolding update_status
  update_status-IsKept p now row found = merged-Kept k p now row found

  pub insert_team-IsKept : (now : ℕ) (t : String) → Succeeds (IsKept d₀) (insert_team now t d)
  unfolding insert_team
  insert_team-IsKept now t = elim (Bool-cases (has_team t d.teams)) [
    | inl there ↦ rw there tt
    | inr fresh ↦ rw fresh k
  ]

  pub upsert_user-IsKept : (new : UserRow) → Succeeds (IsKept d₀) (upsert_user new d)
  unfolding upsert_user
  upsert_user-IsKept new = elim (Bool-cases (has_team new.team_name d.teams)) [
    | inl there ↦ rw there k
    | inr fresh ↦ rw fresh tt
  ]

  pub update_activity-IsKept :
      (chosen : String → Bool) (active : Bool) (now : ℕ)
      → IsKept d₀ (update_activity chosen active now d)
  unfolding update_activity
  update_activity-IsKept chosen active now = k
