-- ===== src/Effects/Merge.antt =====
-- The effect of `MergePullRequest`: the status, and a merge time that is set once.
use pr_reviewer_service.Prelude.{
  ℕ, String, ◌≡◌, refl, sym, ◌∙◌, ap, ◌⊎◌, inl, inr, Bool, true, false, ◌&&◌, Option, none, some,
  List, arith, eq_refl, is_some,
}
use pr_reviewer_service.Domain.{merged, status_eq, PullRequest, err_pr_not_found}
use pr_reviewer_service.Validation.{validate_pr_id}
use pr_reviewer_service.Database.Schema.{PrRow, Db, find_pr}
use pr_reviewer_service.Database.Statements.{update_status, with_status, coalesce}
use pr_reviewer_service.Database.Queries.{reviewer_ids}
use pr_reviewer_service.Repository.Monad.{Result, ok, err, panic, Env, World, not_found, same_error}
use pr_reviewer_service.Repository.Triple.{
  After, Triple, Triple-pure, Triple-bind, Triple-on_error, Triple-query_row, Triple-given,
  Triple-exec, Triple-with_tx, Triple-weaken,
}
use pr_reviewer_service.Repository.PullRequests.{
  stamp_merged, update_pr_status_body, update_pr_status, get_pull_request, pull_request_of,
}
use pr_reviewer_service.Service.Basic.{merge_pull_request}
use pr_reviewer_service.Integrity.Rows.{find_pr-status_written}
use pr_reviewer_service.Integrity.Reads.{get_pull_request_reads}
use pr_reviewer_service.Integrity.Candidates.{Triple-check}
use pr_reviewer_service.Effects.Reading.{Read, read_lem}

-- The test of the early return.
abbrev pub settled : PrRow → Bool
settled row = status_eq row.status merged && status_eq merged merged && is_some row.merged_at

-- A row that was found, after a merge at the time `t`, and the tables with it. Where the pull
-- request was merged and stamped already nothing is written.
pub record Merged (d₀ : Db) (p : String) (d : Db) : Type 0 where
  pub before : PrRow
  pub was_there : find_pr p d₀.prs ≡ some before
  pub time : ℕ
  pub written :
      (d ≡ d₀) × (is_some before.merged_at ≡ true) × (before.status ≡ merged)
      ⊎ (d ≡ update_status p merged time d₀) × (settled before ≡ false)
  pub now_merged : find_pr p d.prs ≡ some (with_status merged time before)

settled-with_status : (t : ℕ) (row : PrRow) → true ≡ settled row → row ≡ with_status merged t row
settled-with_status t row h = ground arith

pub find_pr-updated :
    (t : ℕ) (p : String) (d : Db) (row : PrRow)
    → find_pr p d.prs ≡ some row
    → find_pr p (update_status p merged t d).prs ≡ some (with_status merged t row)
unfolding update_status
find_pr-updated t p d row found =
    find_pr-status_written p p merged t d.prs ∙ rw (found, eq_refl p) refl

some_injective : (x y : PrRow) → some x ≡ some y → x ≡ y
some_injective x y h = ground arith

-- What a merge answers, in the state that it leaves.
pub record Answer (d₀ : Db) (p : String) (pr : PullRequest) (d : Db) : Type 0 where
  pub state : Merged d₀ p d
  pub read : Read d p pr
  pub is_merged : pr.status ≡ merged
  pub is_stamped : is_some pr.merged_at ≡ true
  pub time_kept : is_some state.before.merged_at ≡ true → pr.merged_at ≡ state.before.merged_at

coalesced_is_some : {x : Option ℕ} (o : Option ℕ) (t : ℕ) → x ≡ coalesce o t → is_some x ≡ true
coalesced_is_some none t h = rw h refl
coalesced_is_some (some s) t h = rw h refl

coalesced_keeps :
    {x : Option ℕ} (o : Option ℕ) (t : ℕ) → x ≡ coalesce o t → is_some o ≡ true → x ≡ o
coalesced_keeps none t h was = absurd (ground arith)
coalesced_keeps (some s) t h was = h

row-Answer :
    (d₀ d : Db) (p : String) (m : Merged d₀ p d) (row : PrRow) (reviewers : List String)
    → row ≡ with_status merged m.time m.before
    → Read d p (pull_request_of row reviewers)
    → Answer d₀ p (pull_request_of row reviewers) d
row-Answer d₀ d p m row reviewers h read = record {
  state = m;
  read = read;
  is_merged = ap (λ (x : PrRow). x.status) h;
  is_stamped = coalesced_is_some m.before.merged_at m.time (ap (λ (x : PrRow). x.merged_at) h);
  time_kept =
      λ was. coalesced_keeps m.before.merged_at m.time (ap (λ (x : PrRow). x.merged_at) h) was;
}

found-Answer :
    (e : Env) (d₀ : Db) (p : String) (d : Db) (pr : PullRequest)
    → Merged d₀ p d
    → (row : PrRow) × (find_pr p d.prs ≡ some row)
      × (pr ≡ pull_request_of row (reviewer_ids e.text_le p (e.scan_reviewers d.reviewers)))
    → Answer d₀ p pr d
found-Answer e d₀ p d pr m (row, found, answer) = rw answer (
    row-Answer d₀ d p m row (reviewer_ids e.text_le p (e.scan_reviewers d.reviewers))
      (some_injective _ _ (sym found ∙ m.now_merged)) (read_lem e p d _ row found refl))

module _ (e : Env) (d₀ : Db) where
  stamp_merged_triple :
      (t : ℕ) (p : String) (row : PrRow)
      → find_pr p d₀.prs ≡ some row
      → (b : Bool) → b ≡ settled row
      → Triple (λ d. d ≡ d₀) (stamp_merged e t p merged b) (λ _. Merged d₀ p) (λ d. Unit)
  unfolding stamp_merged
  stamp_merged_triple t p row found true s = Triple-pure tt λ d same. record {
    before = row;
    was_there = found;
    time = t;
    written = inl (same, ground arith, ground arith);
    now_merged =
        ap (λ (x : Db). find_pr p x.prs) same ∙ found ∙ ap some (settled-with_status t row s);
  }
  stamp_merged_triple t p row found false s =
      Triple-exec e (λ d h. tt) _
        λ d same. record {
          before = row;
          was_there = found;
          time = t;
          written = inr (ap (update_status p merged t) same, sym s);
          now_merged =
              ap (λ (x : Db). find_pr p (update_status p merged t x).prs) same
              ∙ find_pr-updated t p d₀ row found;
        }

  update_body_triple :
      (t : ℕ) (p : String)
      → Triple (λ d. d ≡ d₀) (update_pr_status_body e p merged t) (λ _. Merged d₀ p) (λ d. Unit)
  unfolding update_pr_status_body
  update_body_triple t p =
      Triple-bind _ _
        (Triple-on_error (not_found err_pr_not_found same_error) _ (
          Triple-query_row e (λ d h. tt) {Q = λ row d. (find_pr p d₀.prs ≡ some row) × (d ≡ d₀)}
            (λ d. find_pr p d.prs) (λ d row found same. (rw same at found, same))))
        λ row. Triple-given _ λ found. stamp_merged_triple t p row found _ refl

  merge_effect :
      (p : String)
      → Triple (λ d. d ≡ d₀) (merge_pull_request e p) (Answer d₀ p) (λ d. (d ≡ d₀) ⊎ Merged d₀ p d)
  unfolding merge_pull_request update_pr_status
  merge_effect p = Triple-bind _ _ (Triple-check (validate_pr_id p) (λ d h. inl h)) λ _.
      Triple-given _ λ valid.
        Triple-bind _ _
          (Triple-with_tx {Y = λ d. Unit} e _ (λ d h. inl h) (λ _ d h. inr h)
            (λ started. update_body_triple started p))
          λ _.
            Triple-weaken (get_pull_request e p)
              (λ pr d h. found-Answer e d₀ p d pr h.0 (h.1, h.2, h.3))
              (get_pull_request_reads e (λ d h. inr h) p)

-- `MergePullRequest` from any state. On success the pull request was there, its row is merged with
-- a merge time, which is the old one where it had one, and nothing else is written; where it was
-- merged already nothing is written at all; the answer is the row with its reviewers. On an error either nothing has changed or the whole
-- merge is there. There is no panic.
pub merge_pull_request_outcome :
    (e : Env) (p : String) (w : World)
    → let (r, w') = merge_pull_request e p w in
      After (Answer w.db p) (λ d. (d ≡ w.db) ⊎ Merged w.db p d) r w'.db
merge_pull_request_outcome e p w = (merge_effect e w.db p).at w refl

settled_again : (t : ℕ) (row : PrRow) → settled (with_status merged t row) ≡ true
settled_again t row = ground (arith, coalesced_is_some row.merged_at t refl)

Merged-stays :
    (d₀ d d' : Db) (p : String) (pr : PullRequest) → Answer d₀ p pr d → Merged d p d' → d' ≡ d
Merged-stays d₀ d d' p pr a m = written m.written
  where
    again : settled m.before ≡ true
    again =
        ap settled (some_injective _ _ (sym m.was_there ∙ a.state.now_merged))
        ∙ settled_again a.state.time a.state.before

    written :
        ((d' ≡ d) × (is_some m.before.merged_at ≡ true) × (m.before.status ≡ merged)
          ⊎ (d' ≡ update_status p merged m.time d) × (settled m.before ≡ false))
        → d' ≡ d
    written (inl h) = h.0
    written (inr h) = cc (again, h.1)

second_merge :
    (d₀ d : Db) (p : String) (pr : PullRequest) (r : Result PullRequest) (d' : Db)
    → Answer d₀ p pr d
    → After (Answer d p) (λ x. (x ≡ d) ⊎ Merged d p x) r d'
    → d' ≡ d
second_merge d₀ d p pr (ok again) d' a h = Merged-stays d₀ d d' p pr a h.state
second_merge d₀ d p pr (err x) d' a (inl same) = same
second_merge d₀ d p pr (err x) d' a (inr m) = Merged-stays d₀ d d' p pr a m
second_merge d₀ d p pr panic d' a h = absurd h

-- Merging is idempotent: once a merge has succeeded, another merge of the same pull request writes
-- nothing, whatever it answers.
pub merge_pull_request_again :
    (e : Env) (p : String) (w : World) (pr : PullRequest)
    → (merge_pull_request e p w).0 ≡ ok pr
    → let w₁ = (merge_pull_request e p w).1 in (merge_pull_request e p w₁).1.db ≡ w₁.db
merge_pull_request_again e p w pr merged_once =
    let w₁ = (merge_pull_request e p w).1 in
    let first : Answer w.db p pr w₁.db = rw merged_once at (merge_pull_request_outcome e p w) in
    second_merge w.db w₁.db p pr (merge_pull_request e p w₁).0 (merge_pull_request e p w₁).1.db
      first (merge_pull_request_outcome e p w₁)
