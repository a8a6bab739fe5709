-- ===== src/Stability/Storage.antt =====
-- The operations of internal/repository/storage.go, for any stable predicate.
use pr_reviewer_service.Prelude.{ℕ, String, Bool, false, List, [], ◌∷◌, not, is_some, ◌==◌}
use pr_reviewer_service.Domain.{
  User, Team, PullRequest, PrStatus, merged, status_eq, err_user_not_found, err_team_exists,
  err_pr_exists, err_pr_not_found, err_pr_merged, err_reviewer_absent,
}
use pr_reviewer_service.Database.Schema.{Db, find_user, find_pr}
use pr_reviewer_service.Database.Statements.{done, upsert_user, update_activity}
use pr_reviewer_service.Repository.Monad.{
  execute_query, domain, Env, M, pure, wrap, not_found, same_error, exec, ◌>>=◌,
}
use pr_reviewer_service.Repository.Triple.{
  Triple, Triple-pure, Triple-bind, Triple-if, Triple-on_error, Triple-raise_if, Triple-to_sql,
  Triple-query, Triple-query_row, Triple-exec, Triple-now, Triple-weaken, Triple-with_tx,
}
use pr_reviewer_service.Repository.Transaction.{with_tx}
use pr_reviewer_service.Repository.Teams.{upsert_members, create_team_body, create_team, member_row}
use pr_reviewer_service.Repository.Users.{
  update_user_activity, set_user_activity, deactivate_users, get_user_by_id,
}
use pr_reviewer_service.Repository.PullRequests.{
  insert_reviewers, remove_reviewer, assign_all, create_pull_request_body, create_pull_request,
  stamp_merged, update_pr_status_body, update_pr_status, assign_new, replace_reviewer_body,
  replace_reviewer, get_pull_request, new_row,
}
use pr_reviewer_service.Integrity.Reads.{
  get_team_reads, get_user_by_id_reads, get_pull_request_reads,
}
use pr_reviewer_service.Integrity.Storage.{Anything}
use pr_reviewer_service.Repository.Triple.{Holds}
use pr_reviewer_service.Stability.{Stable, Stable-reviewers_batch, Stable-removal_batch}

module _ {I : Db → Type 0} (s : Stable I) (e : Env) where
  -- A transaction keeps `I` if its body does where it succeeds.
  abbrev pub HoldsInside : {A : Type 0} → M A → Type 0
  HoldsInside m = Triple I m (λ _. I) Anything

  pub tx_Holds :
      {A : Type 0} (body : ℕ → M A) → ((t : ℕ) → HoldsInside (body t)) → Holds I (with_tx e body)
  tx_Holds body h = Triple-with_tx {Y = Anything} e body (λ d k. k) (λ _ d k. k) h

  pub get_user_by_id-Holds : (u : String) → Holds I (get_user_by_id e u)
  get_user_by_id-Holds u =
      Triple-weaken (get_user_by_id e u) (λ a d h. h.0) (get_user_by_id_reads e (λ d k. k) u)

  pub get_pull_request-Holds : (p : String) → Holds I (get_pull_request e p)
  get_pull_request-Holds p =
      Triple-weaken (get_pull_request e p) (λ a d h. h.0) (get_pull_request_reads e (λ d k. k) p)

  upsert_members-HoldsInside :
      (t : String) (time : ℕ) (ms : List User) → HoldsInside (upsert_members e t time ms)
  unfolding upsert_members
  upsert_members-HoldsInside t time [] = Triple-pure tt (λ d k. k)
  upsert_members-HoldsInside t time (m ∷ ms) = Triple-bind _ _ (Triple-to_sql e (λ d k. tt)) λ _.
      Triple-bind _ _
        (Triple-on_error (wrap execute_query) _ (
          Triple-exec e (λ d k. tt) (upsert_user (member_row t time m))
            (λ d k. s.user (member_row t time m) d k)))
        λ _. upsert_members-HoldsInside t time ms

  create_team_body-HoldsInside :
      (team : Team) (started : ℕ) → HoldsInside (create_team_body e team started)
  unfolding create_team_body
  create_team_body-HoldsInside team started = Triple-bind _ _ (Triple-to_sql e (λ d k. tt)) λ _.
      Triple-bind _ _
        (Triple-on_error (wrap execute_query) _
          (Triple-query e (λ d k. tt) {Q = λ _. I} _ (λ d k. k)))
        λ exists.
          Triple-bind _ _ (Triple-raise_if exists (domain err_team_exists) (λ d k. tt) (λ d _ k. k))
            λ _. Triple-bind _ _ (Triple-to_sql e (λ d k. tt)) λ _.
              Triple-bind _ _
                (Triple-on_error (wrap execute_query) _
                  (Triple-exec e (λ d k. tt) _ (λ d k. s.team started team.name d k)))
                λ _.
                  Triple-bind _ _ (Triple-now e)
                    λ time. upsert_members-HoldsInside team.name time team.members

  pub create_team-Holds : (team : Team) → Holds I (create_team e team)
  unfolding create_team
  create_team-Holds team =
      Triple-bind _ _ (tx_Holds _ (create_team_body-HoldsInside team))
        λ _. get_team_reads e (λ d k. k) team.name

  pub update_user_activity-Holds :
      (u : String) (active : Bool) (time : ℕ) → Holds I (update_user_activity e u active time)
  unfolding update_user_activity
  update_user_activity-Holds u active time = record {
    at = λ w k.
        let steps : Holds I (
            exec e (λ d. done (update_activity (λ x. x == u) active time d)) >>= λ _.
            pure (is_some (find_user u w.db.users))) =
          Triple-bind _ _
            (Triple-exec e (λ d k. k) _ (λ d k. s.activity (λ x. x == u) active time d k))
            λ _. Triple-pure _ (λ d k. k) in
        steps.at w k;
  }

  pub set_user_activity-Holds :
      (u : String) (active : Bool) → Holds I (set_user_activity e u active)
  unfolding set_user_activity
  set_user_activity-Holds u active = Triple-bind _ _ (Triple-now e) λ time.
      Triple-bind _ _ (Triple-to_sql e (λ d k. k)) λ _.
        Triple-bind _ _
          (Triple-on_error (wrap execute_query) _ (update_user_activity-Holds u active time))
          λ affected.
            Triple-bind _ _
              (Triple-raise_if (not affected) (domain err_user_not_found) (λ d k. k) (λ d _ k. k))
              λ _. get_user_by_id-Holds u

  pub deactivate_users-Holds : (ids : List String) → Holds I (deactivate_users e ids)
  unfolding deactivate_users
  deactivate_users-Holds [] = Triple-pure _ (λ d k. k)
  deactivate_users-Holds (i ∷ is) =
      Triple-bind _ _
        (tx_Holds _
          (λ started. Triple-exec e (λ d k. tt) _ (λ d k. s.activity _ false started d k)))
        λ _. Triple-query e (λ d k. k) _ (λ d k. k)

  insert_reviewers-HoldsInside :
      (time : ℕ) (p : String) (rs : List String) (source : String)
      → HoldsInside (insert_reviewers e time p rs source)
  unfolding insert_reviewers
  insert_reviewers-HoldsInside time p rs source =
      Triple-exec e (λ d k. tt) _ (λ d k. Stable-reviewers_batch s time p source rs d k)

  assign_all-HoldsInside :
      (time : ℕ) (p : String) (rs : List String) (source : String)
      → HoldsInside (assign_all e time p rs source)
  unfolding assign_all
  assign_all-HoldsInside time p [] source = Triple-pure tt (λ d k. k)
  assign_all-HoldsInside time p (r ∷ rs) source =
      insert_reviewers-HoldsInside time p (r ∷ rs) source

  pub create_pull_request_body-HoldsInside :
      (pr : PullRequest) (rs : List String) (started : ℕ)
      → HoldsInside (create_pull_request_body e pr rs started)
  unfolding create_pull_request_body
  create_pull_request_body-HoldsInside pr rs started =
      Triple-bind _ _ (Triple-query e (λ d k. tt) {Q = λ _. I} _ (λ d k. k)) λ exists.
        Triple-bind _ _ (Triple-raise_if exists (domain err_pr_exists) (λ d k. tt) (λ d _ k. k))
          λ _.
            Triple-bind _ _
              (Triple-exec e (λ d k. tt) _ (λ d k. s.pull_request (new_row pr started) d k))
              λ _. assign_all-HoldsInside started pr.id rs "AUTO_ASSIGN"

  pub create_pull_request-Holds :
      (pr : PullRequest) (rs : List String) → Holds I (create_pull_request e pr rs)
  unfolding create_pull_request
  create_pull_request-Holds pr rs =
      Triple-bind _ _ (tx_Holds _ (create_pull_request_body-HoldsInside pr rs))
        λ _. get_pull_request-Holds pr.id

  stamp_merged-HoldsInside :
      (time : ℕ) (p : String) (status : PrStatus) (settled : Bool)
      → HoldsInside (stamp_merged e time p status settled)
  unfolding stamp_merged
  stamp_merged-HoldsInside time p status settled =
      Triple-if settled _ _ (λ _. Triple-pure tt (λ d k. k))
        λ _.
          Triple-if (status_eq status merged) _ _
            (λ _. Triple-exec e (λ d k. tt) _ (λ d k. s.status p status time d k))
            (λ _. Triple-pure tt (λ d k. k))

  pub update_pr_status_body-HoldsInside :
      (p : String) (status : PrStatus) (started : ℕ)
      → HoldsInside (update_pr_status_body e p status started)
  unfolding update_pr_status_body
  update_pr_status_body-HoldsInside p status started =
      Triple-bind _ _
        (Triple-on_error (not_found err_pr_not_found same_error) _
          (Triple-query_row e (λ d k. tt) {Q = λ _. I} (λ d. find_pr p d.prs) (λ d row _ k. k)))
        λ row. stamp_merged-HoldsInside started p status _

  pub update_pr_status-Holds :
      (p : String) (status : PrStatus) → Holds I (update_pr_status e p status)
  unfolding update_pr_status
  update_pr_status-Holds p status =
      Triple-bind _ _ (tx_Holds _ (update_pr_status_body-HoldsInside p status))
        λ _. get_pull_request-Holds p

  assign_new-HoldsInside :
      (time : ℕ) (p new source : String) → HoldsInside (assign_new e time p new source)
  unfolding assign_new
  assign_new-HoldsInside time p new source =
      Triple-if (new == "") _ _ (λ _. Triple-pure tt (λ d k. k))
        λ _. insert_reviewers-HoldsInside time p (new ∷ []) source

  pub replace_reviewer_body-HoldsInside :
      (p old new source : String) (started : ℕ)
      → HoldsInside (replace_reviewer_body e p old new source started)
  unfolding replace_reviewer_body remove_reviewer
  replace_reviewer_body-HoldsInside p old new source started =
      Triple-bind _ _
        (Triple-on_error (not_found err_pr_not_found same_error) _
          (Triple-query_row e (λ d k. tt) {Q = λ _. I} (λ d. find_pr p d.prs) (λ d row _ k. k)))
        λ row.
          Triple-bind _ _ (Triple-raise_if _ (domain err_pr_merged) (λ d k. tt) (λ d _ k. k)) λ _.
            Triple-bind _ _ (Triple-query e (λ d k. tt) {Q = λ _. I} _ (λ d k. k)) λ found.
              Triple-bind _ _
                (Triple-raise_if (not found) (domain err_reviewer_absent) (λ d k. tt) (λ d _ k. k))
                λ _.
                  Triple-bind _ _
                    (Triple-exec e (λ d k. tt) _
                      (λ d k. Stable-removal_batch s started p source old d k))
                    λ _. assign_new-HoldsInside started p new source

  pub replace_reviewer-Holds :
      (p old new source : String) → Holds I (replace_reviewer e p old new source)
  unfolding replace_reviewer
  replace_reviewer-Holds p old new source =
      Triple-bind _ _ (tx_Holds _ (replace_reviewer_body-HoldsInside p old new source))
        λ _. Triple-bind _ _ (get_pull_request-Holds p) λ pr. Triple-pure _ (λ d k. k)
