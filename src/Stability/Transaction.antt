-- ===== src/Stability/Transaction.antt =====
-- `txStorage` of internal/repository/tx_storage.go and `WithTransaction`, for any stable predicate.
use pr_reviewer_service.Prelude.{ℕ, String, Bool, false, not, List, [], ◌∷◌}
use pr_reviewer_service.Domain.{User, Team, err_team_exists, err_team_not_found, err_user_not_found}
use pr_reviewer_service.Database.Schema.{Db}
use pr_reviewer_service.Database.Statements.{upsert_user}
use pr_reviewer_service.Repository.Monad.{domain, Env, M, not_found, same_error}
use pr_reviewer_service.Repository.Triple.{
  Triple-pure, Triple-bind, Triple-on_error, Triple-raise_if, Triple-query, Triple-query_row,
  Triple-exec, Triple-weaken, Triple-widen,
}
use pr_reviewer_service.Repository.Teams.{member_row}
use pr_reviewer_service.Repository.Users.{read_user}
use pr_reviewer_service.Repository.Tx.{
  check_team, get_team, upsert_members, create_team, get_user_by_id, set_user_activity,
  list_active_team_members, deactivate_users, create_pull_request, get_pull_request,
  update_pr_status, replace_reviewer, list_review_assignments, list_open_prs_by_reviewer,
  fetch_assignment_stats, with_transaction,
}
use pr_reviewer_service.Repository.Interface
use pr_reviewer_service.Repository.Interface.{
  Call, Answer, answering, call, calls, tx_storage, transactional,
}
use pr_reviewer_service.Integrity.Reads.{
  list_active_team_members_reads, list_review_assignments_reads, list_open_prs_by_reviewer_reads,
  fetch_assignment_stats_reads,
}
use pr_reviewer_service.Repository.Triple.{Holds}
use pr_reviewer_service.Stability.{Stable}
use pr_reviewer_service.Stability.Storage.{
  HoldsInside, tx_Holds, get_pull_request-Holds, update_user_activity-Holds,
  create_pull_request_body-HoldsInside, update_pr_status_body-HoldsInside,
  replace_reviewer_body-HoldsInside,
}

module _ {I : Db → Type 0} (s : Stable I) (e : Env) where
  abbrev Inside : {A : Type 0} → M A → Type 0
  Inside m = HoldsInside s e m

  loosely : {A : Type 0} {m : M A} → Holds I m → Inside m
  loosely h = Triple-widen _ (λ d k. tt) h

  upsert_members-Inside :
      (t : String) (time : ℕ) (ms : List User) → Inside (upsert_members e t time ms)
  unfolding upsert_members
  upsert_members-Inside t time [] = Triple-pure tt (λ d k. k)
  upsert_members-Inside t time (m ∷ ms) =
      Triple-bind _ _
        (Triple-exec e (λ d k. tt) (upsert_user (member_row t time m))
          (λ d k. s.user (member_row t time m) d k))
        λ _. upsert_members-Inside t time ms

  check_team-Inside : (t : String) (ms : List User) → Inside (check_team e t ms)
  unfolding check_team
  check_team-Inside t [] =
      Triple-bind _ _ (Triple-query e (λ d k. tt) {Q = λ _. I} _ (λ d k. k))
        λ found. Triple-raise_if (not found) (domain err_team_not_found) (λ d k. tt) (λ d _ k. k)
  check_team-Inside t (m ∷ ms) = Triple-pure tt (λ d k. k)

  get_team-Inside : (t : String) → Inside (get_team e t)
  unfolding get_team
  get_team-Inside t =
      Triple-bind _ _ (Triple-query e (λ d k. tt) {Q = λ _. I} _ (λ d k. k))
        λ ms. Triple-bind _ _ (check_team-Inside t ms) λ _. Triple-pure _ (λ d k. k)

  create_team-Inside : (started : ℕ) (team : Team) → Inside (create_team e started team)
  unfolding create_team
  create_team-Inside started team =
      Triple-bind _ _ (Triple-query e (λ d k. tt) {Q = λ _. I} _ (λ d k. k)) λ exists.
        Triple-bind _ _ (Triple-raise_if exists (domain err_team_exists) (λ d k. tt) (λ d _ k. k))
          λ _.
            Triple-bind _ _ (Triple-exec e (λ d k. tt) _ (λ d k. s.team started team.name d k)) λ _.
              Triple-bind _ _ (upsert_members-Inside team.name started team.members)
                λ _. get_team-Inside team.name

  get_user_by_id-Inside : (u : String) → Inside (get_user_by_id e u)
  unfolding get_user_by_id
  get_user_by_id-Inside u =
      Triple-on_error (not_found err_user_not_found same_error) _
        (Triple-query_row e (λ d k. tt) (read_user u) (λ d user found k. k))

  set_user_activity-Inside :
      (started : ℕ) (u : String) (active : Bool) → Inside (set_user_activity e started u active)
  unfolding set_user_activity
  set_user_activity-Inside started u active =
      Triple-bind _ _ (loosely (update_user_activity-Holds s e u active started)) λ affected.
        Triple-bind _ _
          (Triple-raise_if (not affected) (domain err_user_not_found) (λ d k. tt) (λ d _ k. k))
          λ _. get_user_by_id-Inside u

  deactivate_users-Inside :
      (started : ℕ) (ids : List String) → Inside (deactivate_users e started ids)
  unfolding deactivate_users
  deactivate_users-Inside started [] = Triple-pure _ (λ d k. k)
  deactivate_users-Inside started (i ∷ is) =
      Triple-bind _ _ (Triple-exec e (λ d k. tt) _ (λ d k. s.activity _ false started d k))
        λ _. Triple-query e (λ d k. tt) _ (λ d k. k)

  get_pull_request-Inside : (p : String) → Inside (get_pull_request e p)
  unfolding get_pull_request
  get_pull_request-Inside p = loosely (get_pull_request-Holds s e p)

  answering-Inside : {A : Type 0} (f : A → Answer) (m : M A) → Inside m → Inside (answering f m)
  answering-Inside f m h = Triple-bind m _ h λ a. Triple-pure _ (λ d k. k)

  call-Inside : (started : ℕ) (c : Call) → Inside (call (tx_storage e started) c)
  unfolding call create_pull_request update_pr_status replace_reviewer list_active_team_members
      list_review_assignments list_open_prs_by_reviewer fetch_assignment_stats
  call-Inside started (Interface.create_team team) =
      answering-Inside _ _ (create_team-Inside started team)
  call-Inside started (Interface.get_team t) = answering-Inside _ _ (get_team-Inside t)
  call-Inside started (Interface.set_user_activity u active) =
      answering-Inside _ _ (set_user_activity-Inside started u active)
  call-Inside started (Interface.get_user_by_id u) = answering-Inside _ _ (get_user_by_id-Inside u)
  call-Inside started (Interface.list_active_team_members t exclude) =
      answering-Inside _ _ (
        Triple-weaken _ (λ users d h. h.0) (list_active_team_members_reads e (λ d k. tt) t exclude))
  call-Inside started (Interface.deactivate_users ids) =
      answering-Inside _ _ (deactivate_users-Inside started ids)
  call-Inside started (Interface.create_pull_request pr rs) = answering-Inside _ _ (
      Triple-bind _ _ (create_pull_request_body-HoldsInside s e pr rs started)
        λ _. loosely (get_pull_request-Holds s e pr.id))
  call-Inside started (Interface.update_pr_status p status) = answering-Inside _ _ (
      Triple-bind _ _ (update_pr_status_body-HoldsInside s e p status started)
        λ _. get_pull_request-Inside p)
  call-Inside started (Interface.get_pull_request p) =
      answering-Inside _ _ (get_pull_request-Inside p)
  call-Inside started (Interface.replace_reviewer p old new source) = answering-Inside _ _ (
      Triple-bind _ _ (replace_reviewer_body-HoldsInside s e p old new source started)
        λ _. Triple-bind _ _ (get_pull_request-Inside p) λ pr. Triple-pure _ (λ d k. k))
  call-Inside started (Interface.list_review_assignments u) =
      answering-Inside _ _ (list_review_assignments_reads e (λ d k. tt) u)
  call-Inside started (Interface.list_open_prs_by_reviewer ids) =
      answering-Inside _ _ (list_open_prs_by_reviewer_reads e (λ d k. tt) ids)
  call-Inside started Interface.fetch_assignment_stats =
      answering-Inside _ _ (fetch_assignment_stats_reads e (λ d k. tt))

  calls-Inside : (started : ℕ) (cs : List Call) → Inside (calls cs (tx_storage e started))
  unfolding calls
  calls-Inside started [] = Triple-pure tt (λ d k. k)
  calls-Inside started (c ∷ cs) =
      Triple-bind _ _ (call-Inside started c) λ _. calls-Inside started cs

  pub with_transaction-Holds :
      (cs : List Call) → Holds I ((transactional e).with_transaction (calls cs))
  unfolding with_transaction
  with_transaction-Holds cs = tx_Holds s e _ (λ started. calls-Inside started cs)
