-- ===== src/Stability/Service.antt =====
-- The use cases of internal/service/service.go, for any stable predicate.
use pr_reviewer_service.Prelude.{
  ℕ, String, Bool, Option, ◌≡◌, refl, false, List, [], ◌∷◌, is_empty, ◌≢◌, inl, inr,
}
use pr_reviewer_service.Domain.{
  User, Team, merged, err_pr_merged, err_reviewer_absent, err_no_candidate,
}
use pr_reviewer_service.Validation.{
  validate_team_name, validate_user_id, validate_pr_id, validate_pr_name,
}
use pr_reviewer_service.Database.Schema.{Db, empty_db}
use pr_reviewer_service.Repository.Monad.{
  domain, Result, ok, err, panic, World, Env, M, lift, ◌>>=◌,
}
use pr_reviewer_service.Repository.Triple.{
  After, Triple, Triple-pure, Triple-bind, Triple-raise_if, Triple-now, Triple-weaken, Triple-given,
  Triple-update_metrics,
}
use pr_reviewer_service.Repository.Listings.{Dict, entries}
use pr_reviewer_service.Repository.Users.{list_active_team_members}
use pr_reviewer_service.Picker.{pick}
use pr_reviewer_service.Service.Basic.{
  check, create_team, get_team, set_user_activity, merge_pull_request, list_review_assignments,
  stats,
}
use pr_reviewer_service.Service.Assignment.{first, pick_one, create_pull_request, reassign_reviewer}
use pr_reviewer_service.Service.Deactivation.{
  MassDeactivateInput, MassDeactivateResult, nothing_done, targets, next_pull_request, choose_new,
  hand_over, hand_over_all, hand_over_users, deactivate_targets, run_targets, mass_deactivate,
}
use pr_reviewer_service.Integrity.Reads.{
  get_team_reads, list_active_team_members_reads, list_review_assignments_reads,
  list_open_prs_by_reviewer_reads, fetch_assignment_stats_reads,
}
use pr_reviewer_service.Integrity.Candidates.{Triple-pick}
use pr_reviewer_service.Integrity.Checks.{Triple-checked, Triple-check_members, Triple-check_ids}
use pr_reviewer_service.Integrity.Assignment.{Triple-first, pick_nonempty}
use pr_reviewer_service.Integrity.Deactivation.{Managed, Manages, After-always, targets-no_panic}
use pr_reviewer_service.Repository.Triple.{Holds}
use pr_reviewer_service.Stability.{Stable}
use pr_reviewer_service.Stability.Storage.{
  get_user_by_id-Holds, get_pull_request-Holds, create_team-Holds, set_user_activity-Holds,
  deactivate_users-Holds, create_pull_request-Holds, update_pr_status-Holds, replace_reviewer-Holds,
}

module _ {I : Db → Type 0} (s : Stable I) (e : Env) where
  -- A check in front of an operation.
  checked-Holds :
      {A : Type 0} (o : Option String) (m : M A) → Holds I m → Holds I (check o >>= λ _. m)
  checked-Holds = Triple-checked (λ d k. k)

  pub service_create_team-Holds : (team : Team) → Holds I (create_team e team)
  unfolding create_team
  service_create_team-Holds team = checked-Holds (validate_team_name team.name) _ (
      Triple-bind _ _ (Triple-check_members (λ d k. k) team.members) λ _.
        Triple-bind _ _ (create_team-Holds s e team)
          λ created. Triple-bind _ _ (Triple-update_metrics _) λ _. Triple-pure _ (λ d k. k))

  pub service_get_team-Holds : (name : String) → Holds I (get_team e name)
  unfolding get_team
  service_get_team-Holds name =
      checked-Holds (validate_team_name name) _ (get_team_reads e (λ d k. k) name)

  pub service_set_user_activity-Holds :
      (u : String) (active : Bool) → Holds I (set_user_activity e u active)
  unfolding set_user_activity
  service_set_user_activity-Holds u active =
      checked-Holds (validate_user_id u) _ (set_user_activity-Holds s e u active)

  pub merge_pull_request-Holds : (p : String) → Holds I (merge_pull_request e p)
  unfolding merge_pull_request
  merge_pull_request-Holds p =
      checked-Holds (validate_pr_id p) _ (update_pr_status-Holds s e p merged)

  pub service_list_review_assignments-Holds : (u : String) → Holds I (list_review_assignments e u)
  unfolding list_review_assignments
  service_list_review_assignments-Holds u = checked-Holds (validate_user_id u) _ (
      Triple-bind _ _ (get_user_by_id-Holds s e u)
        λ _. list_review_assignments_reads e (λ d k. k) u)

  pub stats-Holds : Holds I (stats e)
  unfolding stats
  stats-Holds = fetch_assignment_stats_reads e (λ d k. k)

  candidates-Holds :
      (t : String) (exclude : List String) → Holds I (list_active_team_members e t exclude)
  candidates-Holds t exclude =
      Triple-weaken _ (λ users d h. h.0) (list_active_team_members_reads e (λ d k. k) t exclude)

  pick-Holds : (users : List User) (limit : ℕ) → Holds I (pick e users limit)
  pick-Holds users limit = Triple-weaken _ (λ ids d h. h.1) (Triple-pick e users limit)

  pub service_create_pull_request-Holds :
      (p name author : String) → Holds I (create_pull_request e p name author)
  unfolding create_pull_request
  service_create_pull_request-Holds p name author = checked-Holds (validate_pr_id p) _ (
      checked-Holds (validate_pr_name name) _ (
        checked-Holds (validate_user_id author) _ (
          Triple-bind _ _ (get_user_by_id-Holds s e author) λ user.
            Triple-bind _ _ (candidates-Holds user.team_name (user.id ∷ [])) λ users.
              Triple-bind _ _ (pick-Holds users 2) λ ids. Triple-bind _ _ (Triple-now e) λ time.
                Triple-bind _ _ (create_pull_request-Holds s e _ ids) λ created.
                  Triple-bind _ _ (Triple-update_metrics _) λ _. Triple-pure _ (λ d k. k))))

  -- One of the candidates, where there are any.
  pick_one-Holds : (users : List User) → is_empty users ≡ false → Holds I (pick_one e users)
  unfolding pick_one
  pick_one-Holds users some_user = Triple-bind _ _ (Triple-pick e users 1) λ ids.
      Triple-given (first ids) λ h.
        Triple-weaken (first ids) (λ new d k. k.1)
          (Triple-first ids (pick_nonempty e empty_db users ids some_user h))

  pub service_reassign_reviewer-Holds : (p old : String) → Holds I (reassign_reviewer e p old)
  unfolding reassign_reviewer
  service_reassign_reviewer-Holds p old = checked-Holds (validate_pr_id p) _ (
      checked-Holds (validate_user_id old) _ (
        Triple-bind _ _ (get_pull_request-Holds s e p) λ pr.
          Triple-bind _ _ (Triple-raise_if _ (domain err_pr_merged) (λ d h. h) (λ d _ h. h)) λ _.
            Triple-bind _ _ (Triple-raise_if _ (domain err_reviewer_absent) (λ d h. h) (λ d _ h. h))
              λ _. Triple-bind _ _ (get_user_by_id-Holds s e old) λ old_user.
                Triple-bind _ _ (candidates-Holds old_user.team_name _) λ users.
                  Triple-bind _ _
                    (Triple-raise_if {Q = λ d. (is_empty users ≡ false) × I d} (is_empty users)
                      (domain err_no_candidate) (λ d h. h) (λ d some_user h. (some_user, h)))
                    λ _. Triple-given _ λ some_user.
                      Triple-bind _ _ (pick_one-Holds users some_user) λ new.
                        Triple-bind _ _ (replace_reviewer-Holds s e p old new "MANUAL_REASSIGN")
                          λ replaced.
                            Triple-bind _ _ (Triple-update_metrics _)
                              λ _. Triple-pure _ (λ d k. k)))

  choose_new-Holds : (users : List User) → Holds I (choose_new e users)
  unfolding choose_new
  choose_new-Holds [] = Triple-pure "" (λ d h. h)
  choose_new-Holds (c ∷ cs) = pick_one-Holds (c ∷ cs) refl

  hand_over-Holds : (t user p : String) → Holds I (hand_over e t user p)
  unfolding hand_over
  hand_over-Holds t user p = Triple-bind _ _ (get_pull_request-Holds s e p) λ pr.
      Triple-bind _ _ (candidates-Holds t _) λ users.
        Triple-bind _ _ (choose_new-Holds users) λ new.
          Triple-bind _ _ (replace_reviewer-Holds s e p user new "TEAM_DEACTIVATION")
            λ replaced. Triple-update_metrics _

  next-Holds :
      (rest : MassDeactivateResult → M MassDeactivateResult) (user p : String)
      (res : MassDeactivateResult) (r : Result (Unit {0}))
      → ((res' : MassDeactivateResult) → Holds I (rest res'))
      → Triple (After (λ _. I) I r) (next_pull_request e rest user p res r) (λ _. I) I
  unfolding next_pull_request
  next-Holds rest user p res (ok done) h = h _
  next-Holds rest user p res (err x) h = Triple-pure _ (λ d k. k)
  next-Holds rest user p res panic h = record { at = λ w k. k }

  hand_over_all-Holds :
      (t user : String) (ps : List String) (res : MassDeactivateResult)
      → Holds I (hand_over_all e t user ps res)
  unfolding hand_over_all
  hand_over_all-Holds t user [] res = Triple-pure res (λ d k. k)
  hand_over_all-Holds t user (p ∷ ps) res = record {
    at = λ w k.
        let (r, w') = hand_over e t user p w in
        (next-Holds (hand_over_all e t user ps) user p res r
            (λ res'. hand_over_all-Holds t user ps res')).at
          w' ((hand_over-Holds t user p).at w k);
  }

  hand_over_users-Holds :
      (t : String) (open_prs : Dict (List String)) (us : List String) (res : MassDeactivateResult)
      → Holds I (hand_over_users e t open_prs us res)
  unfolding hand_over_users
  hand_over_users-Holds t open_prs [] res = Triple-pure res (λ d k. k)
  hand_over_users-Holds t open_prs (u ∷ us) res =
      Triple-bind _ _ (hand_over_all-Holds t u (entries u open_prs) res)
        (hand_over_users-Holds t open_prs us)

  deactivate_targets-Holds : (t : String) (ids : List String) → Holds I (deactivate_targets e t ids)
  unfolding deactivate_targets
  deactivate_targets-Holds t ids = Triple-bind _ _ (deactivate_users-Holds s e ids) λ deactivated.
      Triple-bind _ _ (list_open_prs_by_reviewer_reads e (λ d k. k) ids)
        λ open_prs. hand_over_users-Holds t open_prs ids _

  lift-Holds : {A : Type 0} (r : Result A) → r ≢ panic → Holds I (lift r)
  lift-Holds (ok a) h = record { at = λ w k. k }
  lift-Holds (err x) h = record { at = λ w k. k }
  lift-Holds panic h = absurd (h refl)

  Managed-Holds :
      (m : M MassDeactivateResult) (w : World) (out : Result MassDeactivateResult × World)
      → Holds I m
      → I w.db
      → Managed m w out
      → After (λ _. I) I out.0 out.1.db
  Managed-Holds m w out h k (inl (x, failed, same)) = rw (failed, same) k
  Managed-Holds m w out h k (inr (w₁, same, ran, inl as_is)) = rw (as_is, ran) (h.at w₁ (rw same k))
  Managed-Holds m w out h k (inr (w₁, same, ran, inr (x, failed))) =
      rw (failed, ran) (After-always I (m w₁).0 (m w₁).1.db (h.at w₁ (rw same k)))

  module _ (do_tx : M MassDeactivateResult → M MassDeactivateResult) (manager : Manages do_tx) where
    run_targets-Holds : (t : String) (ids : List String) → Holds I (run_targets e do_tx t ids)
    unfolding run_targets
    run_targets-Holds t [] = Triple-pure nothing_done (λ d k. k)
    run_targets-Holds t (id ∷ ids) = record {
      at = λ w k.
          let m = deactivate_targets e t (id ∷ ids) in
          Managed-Holds m w (do_tx m w) (deactivate_targets-Holds t (id ∷ ids)) k
            (manager.outcome m w);
    }

    pub mass_deactivate-Holds :
        (input : MassDeactivateInput) → Holds I (mass_deactivate e do_tx input)
    unfolding mass_deactivate
    mass_deactivate-Holds input = checked-Holds (validate_team_name input.team_name) _ (
        Triple-bind _ _ (Triple-check_ids (λ d k. k) input.user_ids) λ _.
          Triple-bind _ _ (get_team_reads e (λ d k. k) input.team_name) λ team.
            Triple-bind _ _
              (lift-Holds (targets team.members input.user_ids)
                (targets-no_panic e empty_db team.members input.user_ids))
              λ ids. run_targets-Holds team.name ids)
