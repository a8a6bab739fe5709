-- ===== src/Effects/Replace.antt =====
-- The effect of `ReplaceReviewer`: one reviewer of one pull request gives way to another.
use pr_reviewer_service.Prelude.{
  ℕ, String, ◌≡◌, refl, sym, ◌∙◌, ap, ◌⊎◌, inl, inr, true, false, ◌&&◌, not, some, List, [], ◌∷◌,
  arith, ◌==◌, eq_iff, is_some, count_if, if◌then◌else◌, Bool-cases,
}
use pr_reviewer_service.Domain.{
  merged, status_eq, err_pr_not_found, err_pr_merged, err_reviewer_absent,
}
use pr_reviewer_service.Database.Schema.{
  PrRow, EventRow, assigned, unassigned, Db, find_pr, find_user, is_reviewer,
}
use pr_reviewer_service.Database.Statements.{insert_reviewer, delete_reviewer, insert_event}
use pr_reviewer_service.Repository.Monad.{World, Env, domain, not_found, same_error, ◌>>=◌}
use pr_reviewer_service.Repository.Triple.{
  Triple, Triple-pure, Triple-bind, Triple-on_error, Triple-raise_if, Triple-query,
  Triple-query_row, Triple-exec, Triple-with_tx, Triple-weaken, Triple-given, After, Succeeds,
}
use pr_reviewer_service.Repository.PullRequests.{
  reviewers_batch, removal_batch, insert_reviewers, remove_reviewer, assign_new,
  replace_reviewer_body, replace_reviewer,
}
use pr_reviewer_service.Integrity.Invariant.{pair_count}
use pr_reviewer_service.Integrity.Rows.{pair_count-without, not-is_reviewer-count}
use pr_reviewer_service.Integrity.Batches.{reviewer_row}
use pr_reviewer_service.Integrity.Reads.{get_pull_request_reads}
use pr_reviewer_service.Effects.Reading.{Read, read_lem}
use pr_reviewer_service.Effects.Growth.{event_row}

-- The same teams, users and pull requests.
pub record SameOthers (d₀ d : Db) : Type 0 where
  pub teams : d.teams ≡ d₀.teams
  pub users : d.users ≡ d₀.users
  pub prs : d.prs ≡ d₀.prs

-- How often `s` reviews `q` once `old` has left `p`.
abbrev pub count_removed : Db → String → String → String → String → ℕ
count_removed d₀ p old q s = if p == q && old == s then 0 else pair_count q s d₀.reviewers

-- The same once `new` has been added, which the empty text stands for leaving out.
abbrev pub count_replaced : Db → String → String → String → String → String → ℕ
count_replaced d₀ p old new q s =
    if not (new == "") && (p == q && new == s) then 1 else count_removed d₀ p old q s

-- The log once the one who leaves is in it,
abbrev pub log_removed : ℕ → String → String → String → List EventRow → List EventRow
log_removed time p old source es = event_row time p old unassigned source ∷ es

-- and once the one who comes is too.
abbrev pub log_replaced : ℕ → String → String → String → String → List EventRow → List EventRow
log_replaced time p old new source es =
    if new == ""
    then log_removed time p old source es
    else event_row time p new assigned source ∷ log_removed time p old source es

pub record Removed (d₀ : Db) (time : ℕ) (p old source : String) (d : Db) : Type 0 where
  pub others : SameOthers d₀ d
  pub events : d.events ≡ log_removed time p old source d₀.events
  pub pairs : (q s : String) → pair_count q s d.reviewers ≡ count_removed d₀ p old q s

pub record Replaced (d₀ : Db) (p old new source : String) (d : Db) : Type 0 where
  pub others : SameOthers d₀ d
  pub time : ℕ
  pub events : d.events ≡ log_replaced time p old new source d₀.events
  pub pairs : (q s : String) → pair_count q s d.reviewers ≡ count_replaced d₀ p old new q s

removal_batch-Removed :
    (t : ℕ) (p old source : String) (d : Db)
    → Succeeds (Removed d t p old source) (removal_batch t p old source d)
unfolding removal_batch insert_event delete_reviewer
removal_batch-Removed t p old source d = elim (Bool-cases (is_some (find_pr p d.prs))) [
  | inl known ↦ elim (Bool-cases (is_some (find_user old d.users))) [
    | inl someone ↦
        rw (known, someone)
          (record {
            others = record { teams = refl; users = refl; prs = refl };
            events = refl;
            pairs = λ q s. pair_count-without p old q s d.reviewers;
          })
    | inr nobody ↦ rw (known, nobody) tt
  ]
  | inr unknown ↦ rw unknown tt
]

added_pairs :
    (d₀ : Db) (t : ℕ) (p old new source q s : String) (d : Db)
    → Removed d₀ t p old source d
    → (new == "") ≡ false
    → is_reviewer p new d.reviewers ≡ false
    → pair_count q s (reviewer_row t p new ∷ d.reviewers) ≡ count_replaced d₀ p old new q s
unfolding count_if
added_pairs d₀ t p old new source q s d h some_new fresh =
    ground
      (arith, h.pairs q s, not-is_reviewer-count p new d.reviewers fresh, eq_iff p q, eq_iff new s)

insert-Replaced :
    (d₀ : Db) (t : ℕ) (p old new source : String) (d : Db)
    → Removed d₀ t p old source d
    → (new == "") ≡ false
    → Succeeds (Replaced d₀ p old new source) (reviewers_batch t p (new ∷ []) source d)
unfolding reviewers_batch insert_reviewer insert_event
insert-Replaced d₀ t p old new source d h some_new =
    elim (Bool-cases (is_reviewer p new d.reviewers)) [
      | inl there ↦ rw there tt
      | inr fresh ↦ elim (Bool-cases (is_some (find_pr p d.prs))) [
        | inl known ↦ elim (Bool-cases (is_some (find_user new d.users))) [
          | inl someone ↦
              rw (fresh, known, someone)
                (rw (known, someone)
                  (record {
                    others = record {
                      teams = h.others.teams;
                      users = h.others.users;
                      prs = h.others.prs;
                    };
                    time = t;
                    events = rw (some_new, h.events) refl;
                    pairs = λ q s. added_pairs d₀ t p old new source q s d h some_new fresh;
                  }))
          | inr nobody ↦ rw (fresh, known, nobody) tt
        ]
        | inr unknown ↦ rw (fresh, unknown) tt
      ]
    ]

-- What the checks have established of the tables.
abbrev pub IsOpen : Db → String → Type 0
IsOpen d₀ p = (row : PrRow) × (find_pr p d₀.prs ≡ some row) × (status_eq row.status merged ≡ false)

-- The success of a replacement.
pub record Succeeded (d₀ : Db) (p old new source : String) (d : Db) : Type 0 where
  pub effect : Replaced d₀ p old new source d
  pub was_open : IsOpen d₀ p
  pub was_there : is_reviewer p old d₀.reviewers ≡ true

module _ (e : Env) (d₀ : Db) where
  assign_new-Replaced :
      (t : ℕ) (p old new source : String)
      → Triple
          (Removed d₀ t p old source)
          (assign_new e t p new source)
          (λ _. Replaced d₀ p old new source)
          (λ d. Unit)
  unfolding assign_new insert_reviewers
  assign_new-Replaced t p old new source = elim (Bool-cases (new == "")) [
    | inl nobody ↦ rw nobody (
        Triple-pure tt λ d h. record {
          others = h.others;
          time = t;
          events = rw nobody h.events;
          pairs = λ q s. rw nobody (h.pairs q s);
        })
    | inr some_new ↦
        rw some_new
          (Triple-exec e (λ d h. tt) _ (λ d h. insert-Replaced d₀ t p old new source d h some_new))
  ]

  exchange_triple :
      (t : ℕ) (p old new source : String)
      → IsOpen d₀ p
      → is_reviewer p old d₀.reviewers ≡ true
      → Triple
          (λ d. d ≡ d₀)
          (remove_reviewer e t p old source >>= λ _. assign_new e t p new source)
          (λ _. Succeeded d₀ p old new source)
          (λ d. Unit)
  unfolding remove_reviewer
  exchange_triple t p old new source was_open was_there =
      Triple-bind _ _
        (Triple-exec e (λ d h. tt) {Q = Removed d₀ t p old source} _
          (λ d same. rw same (removal_batch-Removed t p old source d₀)))
        λ _.
          Triple-weaken (assign_new e t p new source)
            (λ a d h. record { effect = h; was_open = was_open; was_there = was_there })
            (assign_new-Replaced t p old new source)

  pub replace_body_triple :
      (t : ℕ) (p old new source : String)
      → Triple
          (λ d. d ≡ d₀)
          (replace_reviewer_body e p old new source t)
          (λ _. Succeeded d₀ p old new source)
          (λ d. Unit)
  unfolding replace_reviewer_body
  replace_body_triple t p old new source =
      Triple-bind _ _
        (Triple-on_error (not_found err_pr_not_found same_error) _ (
          Triple-query_row e (λ d h. tt) {Q = λ row d. (find_pr p d₀.prs ≡ some row) × (d ≡ d₀)}
            (λ d. find_pr p d.prs) (λ d row found same. (rw same at found, same))))
        λ row. Triple-given _ λ found.
          Triple-bind _ _
            (Triple-raise_if {Q = λ d. (status_eq row.status merged ≡ false) × (d ≡ d₀)}
              (status_eq row.status merged) (domain err_pr_merged) (λ d h. tt)
              (λ d still_open same. (still_open, same)))
            λ _. Triple-given _ λ still_open.
              Triple-bind _ _
                (Triple-query e (λ d h. tt)
                  {Q = λ b d. (b ≡ is_reviewer p old d₀.reviewers) × (d ≡ d₀)} _
                  (λ d same. (ap (λ (x : Db). is_reviewer p old x.reviewers) same, same)))
                λ b. Triple-given _ λ there.
                  Triple-bind _ _
                    (Triple-raise_if {Q = λ d. (b ≡ true) × (d ≡ d₀)} (not b)
                      (domain err_reviewer_absent) (λ d h. tt) (λ d no same. (ground arith, same)))
                    λ _. Triple-given _ λ yes_there.
                      exchange_triple t p old new source (row, found, still_open)
                        (sym there ∙ yes_there)

  -- `ReplaceReviewer` on tables `d₀`.
  pub replace_reviewer_effect :
      (p old new source : String)
      → Triple
          (λ d. d ≡ d₀)
          (replace_reviewer e p old new source)
          (λ res d. (res.1 ≡ new) × Succeeded d₀ p old new source d × Read d p res.0)
          (λ d. (d ≡ d₀) ⊎ Succeeded d₀ p old new source d)
  unfolding replace_reviewer
  replace_reviewer_effect p old new source =
      Triple-bind _ _
        (Triple-with_tx {Y = λ d. Unit} e _ (λ d h. inl h) (λ _ d h. inr h)
          (λ started. replace_body_triple started p old new source))
        λ _.
          Triple-bind _ _ (get_pull_request_reads e (λ d h. inr h) p)
            λ pr. Triple-pure _ (λ d h. (refl, h.0, read_lem e p d pr h.1 h.2 h.3))

-- `ReplaceReviewer` from any state. On success the pull request was open and `old` was one of its
-- reviewers; `old` is no longer one, `new` is, once (unless `new` is the empty text, which adds
-- nobody), every other pair of a pull request and a reviewer is as it was, and so are the tables of
-- teams, users and pull requests; the log gains an entry for `old` and then one for `new`, if there
-- is one, with the source that was given, and keeps its own; what is returned is the row of the pull
-- request with its reviewers, and `new`. On an error either nothing has changed or all that is
-- written is there. There is no panic.
pub replace_reviewer_outcome :
    (e : Env) (p old new source : String) (w : World)
    → let (r, w') = replace_reviewer e p old new source w in
      After
        (λ res d. (res.1 ≡ new) × Succeeded w.db p old new source d × Read d p res.0)
        (λ d. (d ≡ w.db) ⊎ Succeeded w.db p old new source d)
        r
        w'.db
replace_reviewer_outcome e p old new source w =
    (replace_reviewer_effect e w.db p old new source).at w refl
