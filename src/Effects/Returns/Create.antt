-- ===== src/Effects/Returns/Create.antt =====
-- `CreatePullRequest` where no call to the database fails.
use pr_reviewer_service.Prelude.{
  ℕ, ◌≤◌, String, ◌≡◌, refl, ◌∙◌, ap, Bool, false, none, some, List, [], ◌∷◌, arith, count_if_mono,
  eq_refl,
}
use pr_reviewer_service.Domain.{PullRequest, err_user_not_found, err_pr_exists}
use pr_reviewer_service.Validation.{validate_pr_id, validate_pr_name, validate_user_id}
use pr_reviewer_service.Picker.{pick}
use pr_reviewer_service.Database.Schema.{UserRow, Db, find_user, find_pr}
use pr_reviewer_service.Database.Statements.{done, insert_pr}
use pr_reviewer_service.Database.Queries.{user_of, active_members}
use pr_reviewer_service.Repository.Monad.{
  ◌>>=◌, pure, Error, ok, World, Env, to_sql, wrap, scan_result, build_query, not_found, domain,
  raise_if, now, update_metrics,
}
use pr_reviewer_service.Repository.Triple.{
  Triple, Triple-pure, Triple-bind, Triple-on_error, Triple-given, Triple-now,
  Triple-update_metrics,
}
use pr_reviewer_service.Repository.Calm.{
  Never, calm_send, calm_query, calm_query_row, calm_exec, calm_with_tx,
}
use pr_reviewer_service.Repository.Users.{read_user, get_user_by_id, list_active_team_members}
use pr_reviewer_service.Repository.PullRequests.{
  new_row, create_pull_request_body, assign_all, insert_reviewers,
}
use pr_reviewer_service.Repository.PullRequests
use pr_reviewer_service.Service.Assignment.{count_pull_request, create_pull_request}
use pr_reviewer_service.Integrity.Invariant.{IsConsistent, pair_count, reviewer_count}
use pr_reviewer_service.Integrity.Candidates.{Triple-pick, find_user-id}
use pr_reviewer_service.Effects.Create.{
  Assigned, read-Chosen, new_request, create_pull_request_outcome,
}
use pr_reviewer_service.Effects.Reading.{Read}
use pr_reviewer_service.Effects.Opening.{
  UniqueUsers, Insertable, reviewers_batch-done, chosen-Insertable,
}
use pr_reviewer_service.Effects.Returns.{returned, Present, get_pull_request_calm, check_calm}

module _ (e : Env) (calm : (n : ℕ) → e.fault n ≡ none) (d₀ : Db) where
  pub raise_if_calm :
      {P : Db → Type 0} (b : Bool) (x : Error) → b ≡ false → Triple P (raise_if b x) (λ _. P) Never
  raise_if_calm b x h = record { at = λ w p. rw h p }

  pub get_user_by_id_calm :
      (u : String) (row : UserRow)
      → find_user u d₀.users ≡ some row
      → Triple (λ d. d ≡ d₀) (get_user_by_id e u) (λ user d. (user ≡ user_of row) × (d ≡ d₀)) Never
  unfolding get_user_by_id to_sql
  get_user_by_id_calm u row found =
      Triple-bind _ _ (Triple-on_error (wrap build_query) _ (calm_send e calm)) λ _.
        Triple-on_error (not_found err_user_not_found (wrap scan_result)) _ (
          calm_query_row e calm (read_user u)
            λ d same. (user_of row, rw (same, found) refl, (refl, same)))

  module _ (pr : PullRequest) where
    -- The tables with the row of the pull request.
    abbrev opened_db : ℕ → Db
    opened_db t = record d₀ { prs = new_row pr t ∷ d₀.prs }

    opened_db-Present : (t : ℕ) (d : Db) → d.prs ≡ (opened_db t).prs → Present pr.id d
    unfolding find_pr
    opened_db-Present t d same = (new_row pr t, rw same (ground (arith, eq_refl pr.id)))

    assign_all_calm :
        (ids : List String) (t : ℕ)
        → Insertable pr.id ids (opened_db t)
        → Triple
            (λ d. d ≡ opened_db t)
            (assign_all e t pr.id ids "AUTO_ASSIGN")
            (λ _. Present pr.id)
            Never
    unfolding assign_all insert_reviewers
    assign_all_calm [] t h =
        Triple-pure tt (λ d same. opened_db-Present t d (ap (λ (x : Db). x.prs) same))
    assign_all_calm (r ∷ rs) t h = calm_exec e calm _ λ d same.
        let (d', wrote, prs) =
          reviewers_batch-done t pr.id "AUTO_ASSIGN" (r ∷ rs) (opened_db t) h in
        (d', rw same wrote, opened_db-Present t d' prs)

    module _ (row : UserRow) (ids : List String) (fresh : find_pr pr.id d₀.prs ≡ none)
        (known : find_user pr.author_id d₀.users ≡ some row)
        (fits : (t : ℕ) → Insertable pr.id ids (opened_db t)) where
      insert_pr-done : (t : ℕ) → insert_pr (new_row pr t) d₀ ≡ done (opened_db t)
      unfolding insert_pr
      insert_pr-done t = rw (fresh, known) refl

      create_calm :
          Triple (λ d. d ≡ d₀) (PullRequests.create_pull_request e pr ids) (λ _ _. Unit {0}) Never
      unfolding PullRequests.create_pull_request create_pull_request_body
      create_calm =
          Triple-bind _ _
            (calm_with_tx e calm _ λ t.
              Triple-bind _ _
                (calm_query e calm {Q = λ b d. (b ≡ false) × (d ≡ d₀)} _
                  (λ d same. (rw (same, fresh) refl, same)))
                λ exists. Triple-given _ λ no.
                  Triple-bind _ _ (raise_if_calm exists (domain err_pr_exists) no) λ _.
                    Triple-bind _ _
                      (calm_exec e calm {Q = λ d. d ≡ opened_db t} _
                        (λ d same. (opened_db t, rw same (insert_pr-done t), refl)))
                      λ _. assign_all_calm ids t (fits t))
            λ _. get_pull_request_calm e calm pr.id

  -- From the candidates on.
  picking_calm :
      (pr_id name author : String) (row : UserRow)
      → find_user author d₀.users ≡ some row
      → row.user_id ≡ author
      → find_pr pr_id d₀.prs ≡ none
      → UniqueUsers d₀
      → ((s : String) → pair_count pr_id s d₀.reviewers ≡ 0)
      → Triple
          (λ d. d ≡ d₀)
          (list_active_team_members e row.team_name (row.user_id ∷ []) >>= λ candidates.
            pick e candidates 2 >>= λ reviewers. now e >>= λ time.
            PullRequests.create_pull_request e (new_request pr_id name (user_of row) time) reviewers
            >>= λ created. update_metrics count_pull_request >>= λ _. pure created)
          (λ _ _. Unit {0})
          Never
  unfolding list_active_team_members
  picking_calm pr_id name author row known same fresh unique none_yet =
      Triple-bind _ _
        (calm_query e calm
          {Q = λ users d.
            (users ≡ active_members row.team_name (row.user_id ∷ []) (e.scan_users d₀.users))
            × (d ≡ d₀)}
          _ (λ d h. (rw h refl, h)))
        λ users. Triple-given _ λ from. Triple-bind _ _ (Triple-pick e users 2) λ ids.
          Triple-given _ λ picked. Triple-bind _ _ (Triple-now e) λ time.
            let chosen =
              read-Chosen e d₀ author row (user_of row) users ids refl same from picked in
            Triple-bind _ _
              (create_calm (new_request pr_id name (user_of row) time) row ids fresh
                (ap (λ u. find_user u d₀.users) same ∙ known)
                (λ t.
                  chosen-Insertable d₀ author row.team_name ids unique chosen
                    (new_request pr_id name (user_of row) time) t none_yet))
              λ created. Triple-bind _ _ (Triple-update_metrics _) λ _. Triple-pure _ (λ d h. tt)

  service_create_calm :
      (pr_id name author : String) (row : UserRow)
      → validate_pr_id pr_id ≡ none
      → validate_pr_name name ≡ none
      → validate_user_id author ≡ none
      → find_user author d₀.users ≡ some row
      → row.user_id ≡ author
      → find_pr pr_id d₀.prs ≡ none
      → UniqueUsers d₀
      → ((s : String) → pair_count pr_id s d₀.reviewers ≡ 0)
      → Triple (λ d. d ≡ d₀) (create_pull_request e pr_id name author) (λ _ _. Unit {0}) Never
  unfolding create_pull_request
  service_create_calm pr_id name author row v1 v2 v3 known same fresh unique none_yet =
      Triple-bind _ _ (check_calm e calm (validate_pr_id pr_id) v1) λ _.
        Triple-bind _ _ (check_calm e calm (validate_pr_name name) v2) λ _.
          Triple-bind _ _ (check_calm e calm (validate_user_id author) v3) λ _.
            Triple-bind _ _ (get_user_by_id_calm author row known) λ user. Triple-given _ λ shape.
              rw shape (picking_calm pr_id name author row known same fresh unique none_yet)

no_pair :
    (p s : String) (d : Db)
    → IsConsistent d
    → find_pr p d.prs ≡ none
    → pair_count p s d.reviewers ≡ 0
no_pair p s d h fresh =
    let fewer : pair_count p s d.reviewers ≤ reviewer_count p d.reviewers =
      count_if_mono _ _ d.reviewers (λ x k. ground (arith, k)) in
    omega (arith, h.no_stray p fresh, fewer)

-- Where no call to the database fails, the tables are consistent and the ids of users unique, a pull
-- request with texts that the service accepts, under a new id and of an author who is there, is
-- opened: its row is written as open, and its reviewers are active members of the author's team
-- other than the author, as many as there are and at most two; what is returned is this row with
-- these reviewers.
pub create_pull_request_returns :
    (e : Env)
    → ((n : ℕ) → e.fault n ≡ none)
    → (pr_id name author : String) (w : World) (row : UserRow) → validate_pr_id pr_id ≡ none
    → validate_pr_name name ≡ none
    → validate_user_id author ≡ none
    → find_user author w.db.users ≡ some row
    → find_pr pr_id w.db.prs ≡ none
    → UniqueUsers w.db
    → IsConsistent w.db
    → (pr : PullRequest) × ((create_pull_request e pr_id name author w).0 ≡ ok pr)
      × Assigned w.db pr_id name author (create_pull_request e pr_id name author w).1.db
      × Read (create_pull_request e pr_id name author w).1.db pr_id pr
create_pull_request_returns e calm pr_id name author w row v1 v2 v3 known fresh unique h =
    let (r, w') = create_pull_request e pr_id name author w in
    let (pr, is_returned, whole) =
      returned (λ pr d. Assigned w.db pr_id name author d × Read d pr_id pr) _ r w'.db
        (create_pull_request_outcome e pr_id name author w)
        ((service_create_calm e calm w.db pr_id name author row v1 v2 v3 known
            (find_user-id author w.db.users row known) fresh unique
            (λ s. no_pair pr_id s w.db h fresh)).at
          w refl) in
    (pr, is_returned, whole.0, whole.1)
