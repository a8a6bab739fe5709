-- ===== src/Effects/Growth.antt =====
-- The effect of `CreatePullRequest` of the storage: a new pull request with its reviewers.
use pr_reviewer_service.Prelude.{
  ℕ, ◌+◌, String, ◌≡◌, refl, sym, ◌∙◌, ap, ◌⊎◌, inl, inr, false, Option, none, some, List, [], ◌∷◌,
  arith, ◌==◌, is_some, count_if, count, if◌then◌else◌, Bool-cases,
}
use pr_reviewer_service.Domain.{PullRequest, err_pr_exists}
use pr_reviewer_service.Database.Schema.{
  Db, EventRow, EventType, find_pr, find_user, is_reviewer, assigned,
}
use pr_reviewer_service.Database.Statements.{insert_pr, insert_reviewer, insert_event}
use pr_reviewer_service.Repository.Monad.{Env, domain}
use pr_reviewer_service.Repository.Triple.{
  Triple, Triple-pure, Triple-bind, Triple-raise_if, Triple-query, Triple-exec, Triple-with_tx,
  Triple-weaken, Triple-given, Succeeds,
}
use pr_reviewer_service.Repository.PullRequests.{
  reviewers_batch, insert_reviewers, assign_all, create_pull_request_body, new_row,
}
use pr_reviewer_service.Repository.PullRequests
use pr_reviewer_service.Integrity.Invariant.{pair_count}
use pr_reviewer_service.Integrity.Batches.{Succeeds-and_then, Succeeds-weaken}
use pr_reviewer_service.Integrity.Reads.{get_pull_request_reads}
use pr_reviewer_service.Effects.Reading.{Read, read_lem}

-- An entry of the log.
abbrev pub event_row : ℕ → String → String → EventType → String → EventRow
event_row time p r kind source = record {
  pull_request_id = p;
  reviewer_id = r;
  event_type = kind;
  source = source;
  created_at = time;
}

-- The log with an entry of assignment for each of `ids`, in their order, the last one on top.
unfoldable pub log_assigned : ℕ → String → String → List String → List EventRow → List EventRow
log_assigned time p source [] es = es
log_assigned time p source (r ∷ rs) es =
    log_assigned time p source rs (event_row time p r assigned source ∷ es)

-- `ids` were added to the reviewers of `p` and to the log, and no other table has changed.
pub record Grown (t : ℕ) (source : String) (d₀ : Db) (p : String) (ids : List String) (d : Db)
    : Type 0 where
  pub teams : d.teams ≡ d₀.teams
  pub users : d.users ≡ d₀.users
  pub prs : d.prs ≡ d₀.prs
  pub pairs :
      (q s : String)
      → pair_count q s d.reviewers
        ≡ pair_count q s d₀.reviewers + (if p == q then count s ids else 0)
  pub events : d.events ≡ log_assigned t p source ids d₀.events

Grown-none : (t : ℕ) (source : String) (d : Db) (p : String) → Grown t source d p [] d
unfolding count_if log_assigned
Grown-none t source d p = record {
  teams = refl;
  users = refl;
  prs = refl;
  pairs = λ q s. ground arith;
  events = refl;
}

Grown-more :
    (t : ℕ) (source : String) (d d1 d2 : Db) (p r : String) (rs : List String)
    → Grown t source d p (r ∷ []) d1
    → Grown t source d1 p rs d2
    → Grown t source d p (r ∷ rs) d2
unfolding count_if log_assigned
Grown-more t source d d1 d2 p r rs h k = record {
  teams = k.teams ∙ h.teams;
  users = k.users ∙ h.users;
  prs = k.prs ∙ h.prs;
  pairs = λ q s. ground (arith, h.pairs q s, k.pairs q s);
  events = k.events ∙ ap (log_assigned t p source rs) h.events;
}

module _ (t : ℕ) (p source : String) where
  insert_both-Grown :
      (r : String) (d : Db)
      → Succeeds
          (λ d1. Succeeds (Grown t source d p (r ∷ [])) (insert_event t p r assigned source d1))
          (insert_reviewer t p r d)
  unfolding insert_reviewer insert_event count_if log_assigned
  insert_both-Grown r d = elim (Bool-cases (is_reviewer p r d.reviewers)) [
    | inl there ↦ rw there tt
    | inr fresh ↦ elim (Bool-cases (is_some (find_pr p d.prs))) [
      | inl known ↦ elim (Bool-cases (is_some (find_user r d.users))) [
        | inl someone ↦
            rw (fresh, known, someone)
              (rw (known, someone)
                (record {
                  teams = refl;
                  users = refl;
                  prs = refl;
                  pairs = λ q s. ground arith;
                  events = refl;
                }))
        | inr nobody ↦ rw (fresh, known, nobody) tt
      ]
      | inr unknown ↦ rw (fresh, unknown) tt
    ]
  ]

  reviewers_batch-Grown :
      (rs : List String) (d : Db)
      → Succeeds (Grown t source d p rs) (reviewers_batch t p rs source d)
  unfolding reviewers_batch
  reviewers_batch-Grown [] d = Grown-none t source d p
  reviewers_batch-Grown (r ∷ rs) d =
      Succeeds-and_then (Grown t source d p (r ∷ rs)) _ _ (insert_reviewer t p r d)
        (insert_both-Grown r d)
        λ d1 h.
          Succeeds-and_then (Grown t source d p (r ∷ rs)) (Grown t source d p (r ∷ [])) _
            (insert_event t p r assigned source d1) h
            λ d2 one.
              Succeeds-weaken (reviewers_batch t p rs source d2) (reviewers_batch-Grown rs d2)
                (λ d3 rest. Grown-more t source d d2 d3 p r rs one rest)

-- `pr` is new, its row is written, and `ids` are its reviewers, as the log tells of each. What the
-- other tables hold, and what the log held, is as it was.
pub record Created (d₀ : Db) (pr : PullRequest) (ids : List String) (d : Db) : Type 0 where
  pub fresh : find_pr pr.id d₀.prs ≡ none
  pub time : ℕ
  pub teams : d.teams ≡ d₀.teams
  pub users : d.users ≡ d₀.users
  pub prs : d.prs ≡ new_row pr time ∷ d₀.prs
  pub pairs :
      (q s : String)
      → pair_count q s d.reviewers
        ≡ pair_count q s d₀.reviewers + (if pr.id == q then count s ids else 0)
  pub events : d.events ≡ log_assigned time pr.id "AUTO_ASSIGN" ids d₀.events

none_of : {A : Type 0} (o : Option A) → is_some o ≡ false → o ≡ none
none_of none h = refl
none_of (some a) h = cc

-- The row of the new pull request is there.
abbrev Opened : Db → PullRequest → ℕ → Db → Type 0
Opened d₀ pr t d = (find_pr pr.id d₀.prs ≡ none) × (d ≡ record d₀ { prs = new_row pr t ∷ d₀.prs })

insert_pr-Opened :
    (d₀ : Db) (pr : PullRequest) (t : ℕ)
    → is_some (find_pr pr.id d₀.prs) ≡ false
    → Succeeds (Opened d₀ pr t) (insert_pr (new_row pr t) d₀)
unfolding insert_pr
insert_pr-Opened d₀ pr t fresh = elim (Bool-cases (is_some (find_user pr.author_id d₀.users))) [
  | inl known ↦ rw (fresh, known) (none_of (find_pr pr.id d₀.prs) fresh, refl)
  | inr unknown ↦ rw (fresh, unknown) tt
]

Created-of :
    (d₀ : Db) (pr : PullRequest) (t : ℕ) (ids : List String) (d1 d : Db)
    → Opened d₀ pr t d1
    → Grown t "AUTO_ASSIGN" d1 pr.id ids d
    → Created d₀ pr ids d
Created-of d₀ pr t ids d1 d (fresh, same) g = record {
  fresh = fresh;
  time = t;
  teams = g.teams ∙ ap (λ (x : Db). x.teams) same;
  users = g.users ∙ ap (λ (x : Db). x.users) same;
  prs = g.prs ∙ ap (λ (x : Db). x.prs) same;
  pairs = λ q s.
      g.pairs q s
      ∙ ap (λ (x : Db). pair_count q s x.reviewers + (if pr.id == q then count s ids else 0)) same;
  events = g.events ∙ ap (λ (x : Db). log_assigned t pr.id "AUTO_ASSIGN" ids x.events) same;
}

module _ (e : Env) (d₀ : Db) where
  assign_all-Created :
      (pr : PullRequest) (ids : List String) (t : ℕ)
      → Triple
          (Opened d₀ pr t)
          (assign_all e t pr.id ids "AUTO_ASSIGN")
          (λ _. Created d₀ pr ids)
          (λ d. Unit)
  unfolding assign_all insert_reviewers
  assign_all-Created pr [] t =
      Triple-pure tt (λ d h. Created-of d₀ pr t [] d d h (Grown-none t "AUTO_ASSIGN" d pr.id))
  assign_all-Created pr (r ∷ rs) t =
      Triple-exec e (λ d h. tt) (reviewers_batch t pr.id (r ∷ rs) "AUTO_ASSIGN")
        λ d h.
          Succeeds-weaken (reviewers_batch t pr.id (r ∷ rs) "AUTO_ASSIGN" d)
            (reviewers_batch-Grown t pr.id "AUTO_ASSIGN" (r ∷ rs) d)
            (λ d' g. Created-of d₀ pr t (r ∷ rs) d d' h g)

  pub create_body_triple :
      (pr : PullRequest) (ids : List String) (t : ℕ)
      → Triple
          (λ d. d ≡ d₀)
          (create_pull_request_body e pr ids t)
          (λ _. Created d₀ pr ids)
          (λ d. Unit)
  unfolding create_pull_request_body
  create_body_triple pr ids t =
      Triple-bind _ _
        (Triple-query e (λ d h. tt) {Q = λ b d. (b ≡ is_some (find_pr pr.id d₀.prs)) × (d ≡ d₀)} _
          (λ d same. (ap (λ (x : Db). is_some (find_pr pr.id x.prs)) same, same)))
        λ exists. Triple-given _ λ read.
          Triple-bind _ _
            (Triple-raise_if {Q = λ d. (exists ≡ false) × (d ≡ d₀)} exists (domain err_pr_exists)
              (λ d h. tt) (λ d no same. (no, same)))
            λ _. Triple-given _ λ no.
              Triple-bind _ _
                (Triple-exec e (λ d h. tt) {Q = Opened d₀ pr t} (insert_pr (new_row pr t))
                  (λ d same. rw same (insert_pr-Opened d₀ pr t (sym read ∙ no))))
                λ _. assign_all-Created pr ids t

  pub storage_create_effect :
      (pr : PullRequest) (ids : List String)
      → Triple
          (λ d. d ≡ d₀)
          (PullRequests.create_pull_request e pr ids)
          (λ res d. Created d₀ pr ids d × Read d pr.id res)
          (λ d. (d ≡ d₀) ⊎ Created d₀ pr ids d)
  unfolding PullRequests.create_pull_request
  storage_create_effect pr ids =
      Triple-bind _ _
        (Triple-with_tx {Y = λ d. Unit} e _ (λ d h. inl h) (λ _ d h. inr h)
          (λ t. create_body_triple pr ids t))
        λ _.
          Triple-weaken _ (λ res d h. (h.0, read_lem e pr.id d res h.1 h.2 h.3))
            (get_pull_request_reads e (λ d h. inr h) pr.id)
