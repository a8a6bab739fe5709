-- ===== src/Equivalence/Reads.antt =====
-- The operations of `Storage` that read, against those of `txStorage` in a transaction.
use pr_reviewer_service.Prelude.{ℕ, suc, ◌≡◌, refl, String, not, List, [], ◌∷◌}
use pr_reviewer_service.Domain.{User, err_pr_not_found, err_user_not_found, err_team_not_found}
use pr_reviewer_service.Database.Schema.{Db}
use pr_reviewer_service.Repository.Monad.{
  execute_query, scan_result, domain, ok, World, Env, M, wrap, same_error, on_error, send, ◌>>=◌,
}
use pr_reviewer_service.Repository.Triple.{Triple, Triple-query, Triple-weaken}
use pr_reviewer_service.Repository.Teams
use pr_reviewer_service.Repository.Users
use pr_reviewer_service.Repository.PullRequests.{get_pull_request}
use pr_reviewer_service.Repository.Listings
use pr_reviewer_service.Repository.Tx
use pr_reviewer_service.Repository.Tx.{with_transaction}
use pr_reviewer_service.Integrity.Reads.{
  get_team_reads, get_user_by_id_reads, get_pull_request_reads, list_open_prs_by_reviewer_reads,
  fetch_assignment_stats_reads,
}
use pr_reviewer_service.Equivalence.{Steady, Same}
use pr_reviewer_service.Equivalence.Rules.{
  Same-pure, Same-bind, Same-wrap, Same-raise_if, Same-to_sql, Same-query, Same-query_row,
}
use pr_reviewer_service.Equivalence.Transactions.{Same-single}

module _ (e : Env) (t : ℕ) (steady : Steady e t) where
  -- A read, whose error leaves the tables as they are.
  keeps :
      {A : Type 0} {Q : A → Db → Type 0} {X : Db → Type 0} {m : M A}
      → Triple X m Q X
      → Triple X m (λ _ _. Unit {0}) X
  keeps {m = m} h = Triple-weaken m (λ a d k. tt) h

  check_team-Same :
      (name : String) (ms : List User) → Same (Teams.check_team e name ms) (Tx.check_team e name ms)
  unfolding Teams.check_team Tx.check_team
  check_team-Same name [] = Same-to_sql e t steady _ _ (
      Same-bind _ _ _ _ (Same-wrap execute_query _ _ (Same-query e t steady _))
        λ found. Same-raise_if (not found) (domain err_team_not_found))
  check_team-Same name (m ∷ ms) = Same-pure tt

  -- Reading the rows does not fail.
  scan_members-calm :
      (ms : List User) (w : World)
      → (k : ℕ) × (Teams.scan_members e ms w ≡ (ok tt, record w { sent = k }))
  unfolding Teams.scan_members on_error send ◌>>=◌
  scan_members-calm [] w = (w.sent, refl)
  scan_members-calm (m ∷ ms) w =
      rw (steady.calm w.sent) (scan_members-calm ms (record w { sent = suc w.sent }))

  scanned-Same :
      {A : Type 0} (ms : List User) (m n : M A)
      → Same m n
      → Same (Teams.scan_members e ms >>= λ _. send e >>= λ _. m) n
  unfolding send ◌>>=◌
  scanned-Same ms m n h = record {
    at = λ w w' same.
        let (k, scanned) = scan_members-calm ms w in
        rw (scanned, steady.calm k) (h.at (record w { sent = suc k }) w' same);
  }

  pub get_team-Same : (name : String) → Same (Teams.get_team e name) (Tx.get_team e name)
  unfolding Teams.get_team Tx.get_team
  get_team-Same name = Same-to_sql e t steady _ _ (
      Same-bind _ _ _ _ (Same-wrap execute_query _ _ (Same-query e t steady _))
        λ ms. scanned-Same ms _ _ (Same-bind _ _ _ _ (check_team-Same name ms) λ _. Same-pure _))

  pub read_team-Same :
      (name : String) → Same (Teams.get_team e name) (with_transaction e (λ s. Tx.get_team e name))
  unfolding with_transaction
  read_team-Same name =
      Same-single e t steady _ _ (get_team-Same name)
        (λ d. keeps (get_team_reads e (λ x h. h) name))

  pub get_user_by_id-Same : (u : String) → Same (Users.get_user_by_id e u) (Tx.get_user_by_id e u)
  unfolding Users.get_user_by_id Tx.get_user_by_id
  get_user_by_id-Same u =
      Same-to_sql e t steady _ _
        (Same-query_row e t steady err_user_not_found (wrap scan_result) same_error _)

  pub read_user-Same :
      (u : String)
      → Same (Users.get_user_by_id e u) (with_transaction e (λ s. Tx.get_user_by_id e u))
  unfolding with_transaction
  read_user-Same u =
      Same-single e t steady _ _ (get_user_by_id-Same u)
        (λ d. keeps (get_user_by_id_reads e (λ x h. h) u))

  pub list_active_team_members-Same :
      (name : String) (exclude : List String)
      → Same
          (Users.list_active_team_members e name exclude)
          (with_transaction e (λ s. Tx.list_active_team_members e name exclude))
  unfolding with_transaction Tx.list_active_team_members Users.list_active_team_members
  list_active_team_members-Same name exclude =
      Same-single e t steady _ _ (Same-query e t steady _)
        (λ d. Triple-query e (λ x h. h) _ (λ x h. tt))

  pub list_review_assignments-Same :
      (u : String)
      → Same
          (Listings.list_review_assignments e u)
          (with_transaction e (λ s. Tx.list_review_assignments e u))
  unfolding with_transaction Tx.list_review_assignments Listings.list_review_assignments
  list_review_assignments-Same u =
      Same-single e t steady _ _ (Same-query e t steady _)
        (λ d. Triple-query e (λ x h. h) _ (λ x h. tt))

  open_prs-Same :
      (ids : List String)
      → Same (Listings.list_open_prs_by_reviewer e ids) (Listings.list_open_prs_by_reviewer e ids)
  unfolding Listings.list_open_prs_by_reviewer
  open_prs-Same [] = Same-pure _
  open_prs-Same (i ∷ is) = Same-bind _ _ _ _ (Same-query e t steady _) λ rows. Same-pure _

  pub list_open_prs_by_reviewer-Same :
      (ids : List String)
      → Same
          (Listings.list_open_prs_by_reviewer e ids)
          (with_transaction e (λ s. Tx.list_open_prs_by_reviewer e ids))
  unfolding with_transaction Tx.list_open_prs_by_reviewer
  list_open_prs_by_reviewer-Same ids =
      Same-single e t steady _ _ (open_prs-Same ids)
        (λ d. keeps (list_open_prs_by_reviewer_reads e (λ x h. h) ids))

  stats-Same : Same (Listings.fetch_assignment_stats e) (Listings.fetch_assignment_stats e)
  unfolding Listings.fetch_assignment_stats
  stats-Same =
      Same-bind _ _ _ _ (Same-query e t steady _)
        λ per_user. Same-bind _ _ _ _ (Same-query e t steady _) λ per_pr. Same-pure _

  pub fetch_assignment_stats-Same :
      Same
        (Listings.fetch_assignment_stats e)
        (with_transaction e (λ s. Tx.fetch_assignment_stats e))
  unfolding with_transaction Tx.fetch_assignment_stats
  fetch_assignment_stats-Same =
      Same-single e t steady _ _ stats-Same (λ d. keeps (fetch_assignment_stats_reads e (λ x h. h)))

  pub get_pull_request-Same : (p : String) → Same (get_pull_request e p) (get_pull_request e p)
  unfolding get_pull_request
  get_pull_request-Same p =
      Same-bind _ _ _ _ (Same-query_row e t steady err_pr_not_found same_error same_error _)
        λ row. Same-bind _ _ _ _ (Same-query e t steady _) λ rs. Same-pure _

  pub read_pull_request-Same :
      (p : String) → Same (get_pull_request e p) (with_transaction e (λ s. Tx.get_pull_request e p))
  unfolding with_transaction Tx.get_pull_request
  read_pull_request-Same p =
      Same-single e t steady _ _ (get_pull_request-Same p)
        (λ d. keeps (get_pull_request_reads e (λ x h. h) p))
