-- ===== src/Integrity/Service.antt =====
-- The invariant over the use cases of internal/service/service.go.
use pr_reviewer_service.Prelude.{String, Bool, Option}
use pr_reviewer_service.Domain.{Team}
use pr_reviewer_service.Validation.{validate_team_name, validate_user_id, validate_pr_id}
use pr_reviewer_service.Database.Schema.{Db}
use pr_reviewer_service.Repository.Monad.{Env, M, ◌>>=◌}
use pr_reviewer_service.Repository.Triple.{
  Triple-pure, Triple-bind, Triple-weaken, Triple-update_metrics,
}
use pr_reviewer_service.Repository.Users.{get_user_by_id}
use pr_reviewer_service.Service.Basic.{
  check, create_team, get_team, set_user_activity, merge_pull_request, list_review_assignments,
  stats,
}
use pr_reviewer_service.Integrity.Reads.{
  get_team_reads, get_user_by_id_reads, list_review_assignments_reads, fetch_assignment_stats_reads,
}
use pr_reviewer_service.Integrity.Storage.{Keeps, create_team-Keeps, set_user_activity-Keeps}
use pr_reviewer_service.Integrity.PullRequests.{update_pr_status-Keeps}
use pr_reviewer_service.Integrity.Checks.{Triple-checked, Triple-check_members}

module _ (e : Env) (d₀ : Db) where
  -- A check in front of an operation.
  pub checked-Keeps :
      {A : Type 0} (o : Option String) (m : M A) → Keeps d₀ m → Keeps d₀ (check o >>= λ _. m)
  checked-Keeps = Triple-checked (λ d k. k)

  pub service_create_team-Keeps : (team : Team) → Keeps d₀ (create_team e team)
  unfolding create_team
  service_create_team-Keeps team = checked-Keeps (validate_team_name team.name) _ (
      Triple-bind _ _ (Triple-check_members (λ d k. k) team.members) λ _.
        Triple-bind _ _ (create_team-Keeps e d₀ team)
          λ created. Triple-bind _ _ (Triple-update_metrics _) λ _. Triple-pure _ (λ d k. k))

  pub service_get_team-Keeps : (name : String) → Keeps d₀ (get_team e name)
  unfolding get_team
  service_get_team-Keeps name =
      checked-Keeps (validate_team_name name) _ (get_team_reads e (λ d k. k) name)

  pub service_set_user_activity-Keeps :
      (u : String) (active : Bool) → Keeps d₀ (set_user_activity e u active)
  unfolding set_user_activity
  service_set_user_activity-Keeps u active =
      checked-Keeps (validate_user_id u) _ (set_user_activity-Keeps e d₀ u active)

  pub merge_pull_request-Keeps : (p : String) → Keeps d₀ (merge_pull_request e p)
  unfolding merge_pull_request
  merge_pull_request-Keeps p = checked-Keeps (validate_pr_id p) _ (update_pr_status-Keeps e d₀ p)

  pub service_list_review_assignments-Keeps : (u : String) → Keeps d₀ (list_review_assignments e u)
  unfolding list_review_assignments
  service_list_review_assignments-Keeps u = checked-Keeps (validate_user_id u) _ (
      Triple-bind _ _
        (Triple-weaken (get_user_by_id e u) (λ a d h. h.0) (get_user_by_id_reads e (λ d k. k) u))
        λ _. list_review_assignments_reads e (λ d k. k) u)

  pub stats-Keeps : Keeps d₀ (stats e)
  unfolding stats
  stats-Keeps = fetch_assignment_stats_reads e (λ d k. k)
