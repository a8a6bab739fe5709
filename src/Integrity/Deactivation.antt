-- ===== src/Integrity/Deactivation.antt =====
-- `MassDeactivate` keeps the invariant, and does not panic.
use pr_reviewer_service.Prelude.{
  Bool-cases, ◌⊎◌, inl, inr, ◌≢◌, String, ◌≡◌, refl, false, true, List, [], ◌∷◌, arith, ◌==◌,
  eq_iff,
}
use pr_reviewer_service.Domain.{User}
use pr_reviewer_service.Validation.{validate_team_name}
use pr_reviewer_service.Picker.{is_blank, unique_ids}
use pr_reviewer_service.Database.Schema.{Db}
use pr_reviewer_service.Repository.Monad.{Error, Result, ok, err, panic, World, Env, M, lift}
use pr_reviewer_service.Repository.Triple.{
  After, Triple, Triple-pure, Triple-bind, Triple-given, Triple-from, Triple-update_metrics,
}
use pr_reviewer_service.Repository.Listings.{Dict, entries}
use pr_reviewer_service.Service.Deactivation.{
  membership, MassDeactivateInput, MassDeactivateResult, targets, named_active, next_pull_request,
  choose_new, hand_over, hand_over_all, hand_over_users, deactivate_targets, run_targets,
  mass_deactivate, nothing_done,
}
use pr_reviewer_service.Integrity.Invariant.{IsKept}
use pr_reviewer_service.Integrity.Reads.{get_team_reads, list_open_prs_by_reviewer_reads}
use pr_reviewer_service.Integrity.Storage.{Keeps, deactivate_users-Keeps}
use pr_reviewer_service.Integrity.PullRequests.{replace_reviewer-Keeps}
use pr_reviewer_service.Integrity.Service.{checked-Keeps}
use pr_reviewer_service.Integrity.Checks.{Triple-check_ids}
use pr_reviewer_service.Integrity.Assignment.{
  FromRows, Reading, Reading-NotAuthor, pull_request_reads, replacement_candidates, choose-Keeps,
}

-- The documented behaviour of `Do` of the transaction manager: it answers with an error before the
-- closure runs, or it runs the closure once and answers with its result, or with an error where the
-- result was one or could not be committed. The storage sends its statements through the pool and
-- not through the transaction that the manager opens, so what the closure has written stays.
abbrev pub Answers : Result MassDeactivateResult → Result MassDeactivateResult → Type 0
Answers inner outer = (outer ≡ inner) ⊎ ((x : Error) × (outer ≡ err x))

abbrev pub Managed : M MassDeactivateResult → World → Result MassDeactivateResult × World → Type 0
Managed m w out =
    ((x : Error) × (out.0 ≡ err x) × (out.1.db ≡ w.db))
    ⊎ ((w₁ : World) × (w₁.db ≡ w.db) × (out.1.db ≡ (m w₁).1.db) × Answers (m w₁).0 out.0)

pub record Manages (do_tx : M MassDeactivateResult → M MassDeactivateResult) : Type 0 where
  pub outcome : (m : M MassDeactivateResult) (w : World) → Managed m w (do_tx m w)

blank_empty : is_blank "" ≡ true
unfolding is_blank
blank_empty = refl

blank_not_author : (author : String) → is_blank author ≡ false → (author == "") ≡ false
blank_not_author author named = elim (Bool-cases (author == "")) [
  | inl e ↦ cc (blank_empty, (eq_iff author "").0 e, named)
  | inr e ↦ e
]

pub After-always :
    {A : Type 0} (I : Db → Type 0) (r : Result A) (d : Db) → After (λ _. I) I r d → I d
After-always I (ok a) d h = h
After-always I (err x) d h = h
After-always I panic d h = absurd h

module _ (e : Env) (d₀ : Db) where
  choose_new-Keeps :
      (p t old author : String) (reviewers : List String) (users : List User)
      → is_blank author ≡ false
      → FromRows t (unique_ids e.iterate (old ∷ author ∷ reviewers)) users
      → Triple
          (Reading d₀ p author)
          (choose_new e users)
          (λ new d. ((author == new) ≡ false) × Reading d₀ p author d)
          (IsKept d₀)
  unfolding choose_new
  choose_new-Keeps p t old author reviewers [] named from =
      Triple-pure "" (λ d h. (blank_not_author author named, h))
  choose_new-Keeps p t old author reviewers (c ∷ cs) named from =
      choose-Keeps e d₀ p t old author reviewers (c ∷ cs) named from refl

  hand_over-Keeps : (t user p : String) → Keeps d₀ (hand_over e t user p)
  unfolding hand_over
  hand_over-Keeps t user p = Triple-bind _ _ (pull_request_reads e d₀ p) λ pr.
      Triple-given _ λ named.
        Triple-bind _ _ (replacement_candidates e d₀ p pr.author_id t _) λ users.
          Triple-given _ λ from.
            Triple-bind _ _
              (choose_new-Keeps p t user pr.author_id pr.assigned_reviewers users named from)
              λ new. Triple-given _ λ other.
                Triple-bind _ _
                  (Triple-from _ (λ d h. Reading-NotAuthor e p pr.author_id new d other h)
                    (replace_reviewer-Keeps e d₀ p user new "TEAM_DEACTIVATION"))
                  λ replaced. Triple-update_metrics _

  -- What holds once a pull request was handed over, or was not.
  abbrev Handed : Result (Unit {0}) → Db → Type 0
  Handed r d = After (λ _. IsKept d₀) (IsKept d₀) r d

  next-Keeps :
      (rest : MassDeactivateResult → M MassDeactivateResult) (user p : String)
      (res : MassDeactivateResult) (r : Result (Unit {0}))
      → ((res' : MassDeactivateResult) → Keeps d₀ (rest res'))
      → Triple (Handed r) (next_pull_request e rest user p res r) (λ _. IsKept d₀) (IsKept d₀)
  unfolding next_pull_request
  next-Keeps rest user p res (ok done) h = h _
  next-Keeps rest user p res (err x) h = Triple-pure _ (λ d k. k)
  next-Keeps rest user p res panic h = record { at = λ w k. k }

  hand_over_all-Keeps :
      (t user : String) (ps : List String) (res : MassDeactivateResult)
      → Keeps d₀ (hand_over_all e t user ps res)
  unfolding hand_over_all
  hand_over_all-Keeps t user [] res = Triple-pure res (λ d k. k)
  hand_over_all-Keeps t user (p ∷ ps) res = record {
    at = λ w k.
        let (r, w') = hand_over e t user p w in
        (next-Keeps (hand_over_all e t user ps) user p res r
            (λ res'. hand_over_all-Keeps t user ps res')).at
          w' ((hand_over-Keeps t user p).at w k);
  }

  hand_over_users-Keeps :
      (t : String) (open_prs : Dict (List String)) (us : List String) (res : MassDeactivateResult)
      → Keeps d₀ (hand_over_users e t open_prs us res)
  unfolding hand_over_users
  hand_over_users-Keeps t open_prs [] res = Triple-pure res (λ d k. k)
  hand_over_users-Keeps t open_prs (u ∷ us) res =
      Triple-bind _ _ (hand_over_all-Keeps t u (entries u open_prs) res)
        (hand_over_users-Keeps t open_prs us)

  pub deactivate_targets-Keeps :
      (t : String) (ids : List String) → Keeps d₀ (deactivate_targets e t ids)
  unfolding deactivate_targets
  deactivate_targets-Keeps t ids = Triple-bind _ _ (deactivate_users-Keeps e d₀ ids) λ deactivated.
      Triple-bind _ _ (list_open_prs_by_reviewer_reads e (λ d k. k) ids)
        λ open_prs. hand_over_users-Keeps t open_prs ids _

  named_active-no_panic : (m : Dict User) (ids : List String) → named_active m ids ≢ panic
  unfolding named_active
  named_active-no_panic m [] = λ h. cc
  named_active-no_panic m (id ∷ ids) = λ h. ground (arith, named_active-no_panic m ids)

  pub targets-no_panic : (members : List User) (ids : List String) → targets members ids ≢ panic
  unfolding targets
  targets-no_panic members [] = λ h. cc
  targets-no_panic members (id ∷ ids) = named_active-no_panic (membership members []) (id ∷ ids)

  targets-Keeps : (members : List User) (ids : List String) → Keeps d₀ (lift (targets members ids))
  targets-Keeps members ids = record {
    at = λ w k. no_panic (targets members ids) (targets-no_panic members ids) w.db k;
  }
    where
      no_panic :
          (r : Result (List String))
          → r ≢ panic
          → (d : Db) → IsKept d₀ d
          → After (λ _. IsKept d₀) (IsKept d₀) r d
      no_panic (ok ids) h d k = k
      no_panic (err x) h d k = k
      no_panic panic h d k = absurd (h refl)

  Managed-Keeps :
      (m : M MassDeactivateResult) (w : World) (out : Result MassDeactivateResult × World)
      → Keeps d₀ m
      → IsKept d₀ w.db
      → Managed m w out
      → After (λ _. IsKept d₀) (IsKept d₀) out.0 out.1.db
  Managed-Keeps m w out h k (inl (x, failed, same)) = rw (failed, same) k
  Managed-Keeps m w out h k (inr (w₁, same, ran, inl as_is)) = rw (as_is, ran) (h.at w₁ (rw same k))
  Managed-Keeps m w out h k (inr (w₁, same, ran, inr (x, failed))) =
      rw (failed, ran) (After-always (IsKept d₀) (m w₁).0 (m w₁).1.db (h.at w₁ (rw same k)))

  module _ (do_tx : M MassDeactivateResult → M MassDeactivateResult) (manager : Manages do_tx) where
    run_targets-Keeps : (t : String) (ids : List String) → Keeps d₀ (run_targets e do_tx t ids)
    unfolding run_targets
    run_targets-Keeps t [] = Triple-pure nothing_done (λ d k. k)
    run_targets-Keeps t (id ∷ ids) = record {
      at = λ w k.
          let m = deactivate_targets e t (id ∷ ids) in
          Managed-Keeps m w (do_tx m w) (deactivate_targets-Keeps t (id ∷ ids)) k
            (manager.outcome m w);
    }

    pub mass_deactivate-Keeps :
        (input : MassDeactivateInput) → Keeps d₀ (mass_deactivate e do_tx input)
    unfolding mass_deactivate
    mass_deactivate-Keeps input = checked-Keeps e d₀ (validate_team_name input.team_name) _ (
        Triple-bind _ _ (Triple-check_ids (λ d k. k) input.user_ids) λ _.
          Triple-bind _ _ (get_team_reads e (λ d k. k) input.team_name) λ team.
            Triple-bind _ _ (targets-Keeps team.members input.user_ids)
              λ ids. run_targets-Keeps team.name ids)
