-- ===== src/Integrity/Reads.antt =====
-- The operations of internal/repository that only read keep whatever held before, and what they
-- return tells of the tables.
use pr_reviewer_service.Prelude.{String, ◌≡◌, refl, some, List, [], ◌∷◌, ap, not}
use pr_reviewer_service.Domain.{
  User, Team, err_pr_not_found, err_user_not_found, err_team_not_found,
}
use pr_reviewer_service.Database.Schema.{PrRow, Db, find_pr}
use pr_reviewer_service.Database.Queries.{active_members, reviewer_ids}
use pr_reviewer_service.Repository.Monad.{
  execute_query, scan_result, domain, Env, wrap, not_found, same_error, to_sql, pure, send, ◌>>=◌,
}
use pr_reviewer_service.Repository.Triple.{
  Triple, Triple-pure, Triple-bind, Triple-on_error, Triple-raise_if, Triple-to_sql, Triple-query,
  Triple-query_row, Triple-send, Triple-weaken,
}
use pr_reviewer_service.Repository.Teams.{scan_members, check_team, get_team}
use pr_reviewer_service.Repository.Users.{read_user, get_user_by_id, list_active_team_members}
use pr_reviewer_service.Repository.PullRequests.{get_pull_request, pull_request_of}
use pr_reviewer_service.Repository.Listings

module _ {P X : Db → Type 0} (e : Env) (x : (d : Db) → P d → X d) where
  pub check_team_reads :
      (t : String) (members : List User) → Triple P (check_team e t members) (λ _. P) X
  unfolding check_team
  check_team_reads t [] = Triple-bind (to_sql e) _ (Triple-to_sql e x) λ _.
      Triple-bind _ _ (Triple-on_error (wrap execute_query) _ (Triple-query e x _ (λ d p. p)))
        λ found. Triple-raise_if (not found) (domain err_team_not_found) x (λ d _ p. p)
  check_team_reads t (m ∷ ms) = Triple-pure tt (λ d p. p)

  pub scan_members_reads : (members : List User) → Triple P (scan_members e members) (λ _. P) X
  unfolding scan_members
  scan_members_reads [] = Triple-pure tt (λ d p. p)
  scan_members_reads (m ∷ ms) =
      Triple-bind _ _ (Triple-on_error (wrap scan_result) _ (Triple-send e x))
        λ _. scan_members_reads ms

  -- From the members that were read on.
  pub members_reads :
      (t : String) (members : List User)
      → Triple {A = Team} P
          (scan_members e members >>= λ _. send e >>= λ _.
            check_team e t members >>= λ _. pure (record { name = t; members = members }))
          (λ team d. (team ≡ record { name = t; members = members }) × P d)
          X
  members_reads t members = Triple-bind _ _ (scan_members_reads members) λ _.
      Triple-bind _ _ (Triple-send e x)
        λ _. Triple-bind _ _ (check_team_reads t members) λ _. Triple-pure _ (λ d p. (refl, p))

  pub get_team_reads : (t : String) → Triple P (get_team e t) (λ _. P) X
  unfolding get_team
  get_team_reads t = Triple-bind (to_sql e) _ (Triple-to_sql e x) λ _.
      Triple-bind _ _ (Triple-on_error (wrap execute_query) _ (Triple-query e x _ (λ d p. p)))
        λ members. Triple-weaken _ (λ team d p. p.1) (members_reads t members)

  -- The row that was found, as it stands in the table.
  pub get_user_by_id_reads :
      (u : String) → Triple P (get_user_by_id e u) (λ user d. P d × (read_user u d ≡ some user)) X
  unfolding get_user_by_id
  get_user_by_id_reads u = Triple-bind (to_sql e) _ (Triple-to_sql e x) λ _.
      Triple-on_error (not_found err_user_not_found (wrap scan_result)) _
        (Triple-query_row e x (read_user u) (λ d user found p. (p, found)))

  pub list_active_team_members_reads :
      (t : String) (exclude : List String)
      → Triple P
          (list_active_team_members e t exclude)
          (λ users d. P d × (users ≡ active_members t exclude (e.scan_users d.users)))
          X
  unfolding list_active_team_members
  list_active_team_members_reads t exclude = Triple-query e x _ (λ d p. (p, refl))

  pub get_pull_request_reads :
      (p : String)
      → Triple P
          (get_pull_request e p)
          (λ pr d.
            P d
            × (row : PrRow) × (find_pr p d.prs ≡ some row)
            × (pr ≡ pull_request_of row (reviewer_ids e.text_le p (e.scan_reviewers d.reviewers))))
          X
  unfolding get_pull_request
  get_pull_request_reads p =
      Triple-bind _ _
        (Triple-on_error (not_found err_pr_not_found same_error) _ (
          Triple-query_row e x {Q = λ row d. P d × (find_pr p d.prs ≡ some row)}
            (λ d. find_pr p d.prs) (λ d row found h. (h, found))))
        λ row.
          Triple-bind _ _
            (Triple-query e (λ d h. x d h.0)
              {Q = λ rs d.
                P d
                × (find_pr p d.prs ≡ some row)
                × (rs ≡ reviewer_ids e.text_le p (e.scan_reviewers d.reviewers))}
              _ (λ d h. (h.0, h.1, refl)))
            λ rs. Triple-pure _ (λ d h. (h.0, row, h.1, ap (pull_request_of row) h.2))

  pub list_review_assignments_reads :
      (u : String) → Triple P (Listings.list_review_assignments e u) (λ _. P) X
  unfolding Listings.list_review_assignments
  list_review_assignments_reads u = Triple-query e x _ (λ d p. p)

  pub list_open_prs_by_reviewer_reads :
      (ids : List String) → Triple P (Listings.list_open_prs_by_reviewer e ids) (λ _. P) X
  unfolding Listings.list_open_prs_by_reviewer
  list_open_prs_by_reviewer_reads [] = Triple-pure _ (λ d p. p)
  list_open_prs_by_reviewer_reads (i ∷ is) =
      Triple-bind _ _ (Triple-query e x _ (λ d p. p)) λ rows. Triple-pure _ (λ d p. p)

  pub fetch_assignment_stats_reads : Triple P (Listings.fetch_assignment_stats e) (λ _. P) X
  unfolding Listings.fetch_assignment_stats
  fetch_assignment_stats_reads =
      Triple-bind _ _ (Triple-query e x _ (λ d p. p)) λ per_user.
        Triple-bind _ _ (Triple-query e x _ (λ d p. p)) λ per_pr. Triple-pure _ (λ d p. p)
