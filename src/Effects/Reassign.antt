-- ===== src/Effects/Reassign.antt =====
-- The effect of `ReassignReviewer`: who takes over, and what changes.
use pr_reviewer_service.Prelude.{
  String, ◌≡◌, refl, sym, ◌∙◌, ap, ◌⊎◌, inl, false, some, List, ◌∷◌, is_empty,
}
use pr_reviewer_service.Domain.{
  User, PullRequest, err_pr_merged, err_reviewer_absent, err_no_candidate,
}
use pr_reviewer_service.Validation.{validate_pr_id, validate_user_id}
use pr_reviewer_service.Picker.{unique_ids}
use pr_reviewer_service.Database.Schema.{UserRow, PrRow, Db, find_pr, find_user}
use pr_reviewer_service.Database.Queries.{active_members}
use pr_reviewer_service.Repository.Monad.{World, Env, domain}
use pr_reviewer_service.Repository.Triple.{
  Triple, Triple-pure, Triple-bind, Triple-raise_if, Triple-weaken, Triple-widen, Triple-given,
  Triple-update_metrics, After,
}
use pr_reviewer_service.Repository.Users.{read_user, get_user_by_id, list_active_team_members}
use pr_reviewer_service.Repository.PullRequests.{replace_reviewer}
use pr_reviewer_service.Service.Assignment.{first, pick_one, reassign_reviewer}
use pr_reviewer_service.Integrity.Reads.{get_user_by_id_reads, list_active_team_members_reads}
use pr_reviewer_service.Integrity.Candidates.{Triple-check, Triple-pick}
use pr_reviewer_service.Integrity.Assignment.{Triple-first, pick_nonempty}
use pr_reviewer_service.Effects.Replace.{Succeeded, replace_reviewer_effect}
use pr_reviewer_service.Effects.Reading.{Read, get_pull_request_triple}
use pr_reviewer_service.Effects.Create.{read_user-row, map_right}
use pr_reviewer_service.Effects.Takeover.{Fits, picked-Fits}

-- A reassignment that was carried out.
pub record Reassigned (d₀ : Db) (p old new : String) (d : Db) : Type 0 where
  pub replaced : Succeeded d₀ p old new "MANUAL_REASSIGN" d
  pub pr_row : PrRow
  pub pr_found : find_pr p d₀.prs ≡ some pr_row
  pub old_row : UserRow
  pub old_known : find_user old d₀.users ≡ some old_row
  pub fits : Fits d₀ p old pr_row.author_id old_row.team_name new

module _ (e : Env) (d₀ : Db) where
  -- From the candidates that are there: one is chosen.
  pub choosing_triple :
      (p old t : String) (pr : PullRequest) (users : List User)
      → Read d₀ p pr
      → users
        ≡ active_members t
            (unique_ids e.iterate (old ∷ pr.author_id ∷ pr.assigned_reviewers))
            (e.scan_users d₀.users)
      → is_empty users ≡ false
      → {X : Db → Type 0}
      → Triple
          (λ d. d ≡ d₀)
          (pick_one e users)
          (λ new d. Fits d₀ p old pr.author_id t new × (d ≡ d₀))
          X
  unfolding pick_one
  choosing_triple p old t pr users read from some_user =
      Triple-bind _ _ (Triple-pick e users 1) λ ids. Triple-given (first ids) λ h.
        Triple-weaken (first ids)
          (λ new d k. (picked-Fits e d₀ p old t new pr users ids read from h k.0, k.1))
          (Triple-first ids (pick_nonempty e d₀ users ids some_user h))

  whole :
      (p old new : String) (pr : PullRequest) (user : User)
      → Read d₀ p pr
      → read_user old d₀ ≡ some user
      → Fits d₀ p old pr.author_id user.team_name new
      → (d : Db) → Succeeded d₀ p old new "MANUAL_REASSIGN" d
      → Reassigned d₀ p old new d
  whole p old new pr user read found fits d h =
      let (row, known, shape) = read_user-row old d₀ user found in
      record {
        replaced = h;
        pr_row = read.row;
        pr_found = read.found;
        old_row = row;
        old_known = known;
        fits =
            rw
              (
                ap (λ (x : User). x.team_name) shape,
                ap (λ (x : PullRequest). x.author_id) read.fields,
              )
              at fits;
      }

  -- The answer is the one who was chosen; on an error the change is there or it is not.
  Outcome : String → String → Db → Type 0
  Outcome p old d = (d ≡ d₀) ⊎ ((new : String) × Reassigned d₀ p old new d)

  handing_triple :
      (p old new : String)
      → ((d : Db) → Succeeded d₀ p old new "MANUAL_REASSIGN" d → Reassigned d₀ p old new d)
      → Triple
          (λ d. d ≡ d₀)
          (replace_reviewer e p old new "MANUAL_REASSIGN")
          (λ res d. Reassigned d₀ p old res.1 d × Read d p res.0)
          (Outcome p old)
  unfolding Outcome
  handing_triple p old new f =
      Triple-widen _ (λ d h. map_right (λ k. (new, f d k)) h)
        (Triple-weaken _ (λ res d h. (rw h.0 (f d h.1), h.2))
          (replace_reviewer_effect e d₀ p old new "MANUAL_REASSIGN"))

  candidates_triple :
      (p old t : String) (exclude : List String)
      → Triple
          (λ d. d ≡ d₀)
          (list_active_team_members e t exclude)
          (λ users d. (users ≡ active_members t exclude (e.scan_users d₀.users)) × (d ≡ d₀))
          (Outcome p old)
  unfolding Outcome
  candidates_triple p old t exclude =
      Triple-weaken (list_active_team_members e t exclude) (λ users d h. (rw h.0 at h.1, h.0))
        (list_active_team_members_reads e (λ d h. inl h) t exclude)

  user_triple :
      (p old : String)
      → Triple
          (λ d. d ≡ d₀)
          (get_user_by_id e old)
          (λ user d. (read_user old d₀ ≡ some user) × (d ≡ d₀))
          (Outcome p old)
  unfolding Outcome
  user_triple p old =
      Triple-weaken (get_user_by_id e old)
        (λ user d h. (ap (λ (x : Db). read_user old x) (sym h.0) ∙ h.1, h.0))
        (get_user_by_id_reads e (λ d h. inl h) old)

  reassign_effect :
      (p old : String)
      → Triple
          (λ d. d ≡ d₀)
          (reassign_reviewer e p old)
          (λ res d. Reassigned d₀ p old res.1 d × Read d p res.0)
          (Outcome p old)
  unfolding reassign_reviewer Outcome
  reassign_effect p old = Triple-bind _ _ (Triple-check (validate_pr_id p) (λ d h. inl h)) λ _.
      Triple-given _ λ v1. Triple-bind _ _ (Triple-check (validate_user_id old) (λ d h. inl h)) λ _.
        Triple-given _ λ v2.
          Triple-bind _ _
            (Triple-widen _ (λ d h. inl h)
              (Triple-weaken _ {R = λ pr d. Read d₀ p pr × (d ≡ d₀)} (λ pr d h. (h.1, h.0))
                (get_pull_request_triple e d₀ p)))
            λ pr. Triple-given _ λ read.
              Triple-bind _ _
                (Triple-raise_if {Q = λ d. d ≡ d₀} _ (domain err_pr_merged) (λ d h. inl h)
                  (λ d _ h. h))
                λ _.
                  Triple-bind _ _
                    (Triple-raise_if {Q = λ d. d ≡ d₀} _ (domain err_reviewer_absent) (λ d h. inl h)
                      (λ d _ h. h))
                    λ _. Triple-bind _ _ (user_triple p old) λ user. Triple-given _ λ found.
                      Triple-bind _ _ (candidates_triple p old user.team_name _) λ users.
                        Triple-given _ λ from.
                          Triple-bind _ _
                            (Triple-raise_if {Q = λ d. (is_empty users ≡ false) × (d ≡ d₀)}
                              (is_empty users) (domain err_no_candidate) (λ d h. inl h)
                              (λ d some_user h. (some_user, h)))
                            λ _. Triple-given _ λ some_user.
                              Triple-bind _ _
                                (choosing_triple p old user.team_name pr users read from some_user)
                                λ new. Triple-given _ λ fits.
                                  Triple-bind _ _
                                    (handing_triple p old new
                                      (whole p old new pr user read found fits))
                                    λ replaced.
                                      Triple-bind _ _ (Triple-update_metrics _)
                                        λ _. Triple-pure _ (λ d h. h)

-- `ReassignReviewer` from any state. On success the pull request was open and had the old reviewer,
-- who gives way to the one that is named in the answer: an active member of the old reviewer's team
-- who, unless the id is blank, is neither the old reviewer nor the author nor a reviewer already; the
-- log gains an entry for each of the two and keeps its own; no other assignment, team, user or pull
-- request changes; the answer is the row of the pull request with its reviewers. On an error nothing
-- has changed or such a replacement is there. There is no panic.
pub reassign_reviewer_outcome :
    (e : Env) (p old : String) (w : World)
    → let (r, w') = reassign_reviewer e p old w in
      After
        (λ res d. Reassigned w.db p old res.1 d × Read d p res.0)
        (λ d. (d ≡ w.db) ⊎ ((new : String) × Reassigned w.db p old new d))
        r
        w'.db
unfolding Outcome
reassign_reviewer_outcome e p old w = (reassign_effect e w.db p old).at w refl
