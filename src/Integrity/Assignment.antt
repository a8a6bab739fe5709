-- ===== src/Integrity/Assignment.antt =====
-- Creating a pull request and reassigning a reviewer keep the invariant, and do not panic.
use pr_reviewer_service.Prelude.{
  ◌<◌, String, ◌≡◌, refl, sym, true, false, some, List, [], ◌∷◌, arith, ◌==◌, eq_iff, eq_refl,
  is_empty, str_mem, any_of, count_if, count, length, ap,
}
use pr_reviewer_service.Domain.{
  User, PullRequest, opened, err_pr_merged, err_reviewer_absent, err_no_candidate,
}
use pr_reviewer_service.Validation.{validate_user_id, validate_pr_id, validate_pr_name}
use pr_reviewer_service.Picker.{is_blank, unique_ids}
use pr_reviewer_service.Picker.Laws.{IsPickOf, user_ids}
use pr_reviewer_service.Database.Schema.{PrRow, Db, find_pr}
use pr_reviewer_service.Database.Queries.{active_members}
use pr_reviewer_service.Repository.Monad.{Env, domain}
use pr_reviewer_service.Repository.Triple.{
  Triple, Triple-pure, Triple-bind, Triple-raise_if, Triple-now, Triple-weaken, Triple-given,
  Triple-from, Triple-update_metrics,
}
use pr_reviewer_service.Repository.Users.{get_user_by_id, list_active_team_members}
use pr_reviewer_service.Repository.PullRequests.{get_pull_request}
use pr_reviewer_service.Service.Basic.{check}
use pr_reviewer_service.Service.Assignment.{first, pick_one, create_pull_request, reassign_reviewer}
use pr_reviewer_service.Integrity.Invariant.{IsKept}
use pr_reviewer_service.Integrity.Reads.{
  get_user_by_id_reads, list_active_team_members_reads, get_pull_request_reads,
}
use pr_reviewer_service.Integrity.Storage.{Keeps}
use pr_reviewer_service.Integrity.PullRequests.{
  NotAuthor, IsNew, create_pull_request-Keeps, replace_reviewer-Keeps,
}
use pr_reviewer_service.Integrity.Service.{checked-Keeps}
use pr_reviewer_service.Database.Schema.{UserRow}
use pr_reviewer_service.Integrity.Candidates.{
  Triple-check, Triple-pick, count-active_members, validate_user_id-named, read_user-id,
  str_mem-unique_ids,
}

-- The candidates of a query, with the rows that they were read from.
abbrev pub FromRows : String → List String → List User → Type 0
FromRows t exclude users = (rows : List UserRow) × (users ≡ active_members t exclude rows)

module _ (e : Env) (d₀ : Db) where
  -- What a pick for a new pull request satisfies.
  picked-IsNew :
      (pr : PullRequest) (t : String) (rows : List UserRow) (users : List User) (ids : List String)
      → pr.status ≡ opened
      → is_blank pr.author_id ≡ false
      → users ≡ active_members t (pr.author_id ∷ []) rows
      → IsPickOf (user_ids users) 2 ids
      → IsNew pr ids
  picked-IsNew pr t rows users ids is_open named from h = record {
    is_open = is_open;
    named = named;
    few = omega (arith, h.size);
    others =
        let out : count pr.author_id (user_ids users) ≡ 0 = rw from (
          count-active_members pr.author_id t (pr.author_id ∷ []) rows
            (unfold any_of in rw (eq_refl pr.author_id) refl)) in
        omega (arith, h.from_candidates pr.author_id, out);
  }

  candidates-Keeps :
      (t : String) (exclude : List String)
      → Triple
          (IsKept d₀)
          (list_active_team_members e t exclude)
          (λ users d. FromRows t exclude users × IsKept d₀ d)
          (IsKept d₀)
  candidates-Keeps t exclude =
      Triple-weaken (list_active_team_members e t exclude)
        (λ users d h. ((e.scan_users d.users, h.1), h.0))
        (list_active_team_members_reads e (λ d k. k) t exclude)

  user-Keeps :
      (u : String)
      → Triple (IsKept d₀) (get_user_by_id e u) (λ user d. (user.id ≡ u) × IsKept d₀ d) (IsKept d₀)
  user-Keeps u =
      Triple-weaken (get_user_by_id e u) (λ user d h. (read_user-id u d user h.1, h.0))
        (get_user_by_id_reads e (λ d k. k) u)

  -- `CreatePullRequest`, from the pick on.
  pub service_create_pull_request-Keeps :
      (pr_id name author_id : String) → Keeps d₀ (create_pull_request e pr_id name author_id)
  unfolding create_pull_request
  service_create_pull_request-Keeps pr_id name author_id =
      checked-Keeps e d₀ (validate_pr_id pr_id) _ (
        checked-Keeps e d₀ (validate_pr_name name) _ (
          Triple-bind (check (validate_user_id author_id)) _ (Triple-check _ (λ d k. k)) λ _.
            Triple-given _ λ valid. Triple-bind _ _ (user-Keeps author_id) λ author.
              Triple-given _ λ same.
                Triple-bind _ _ (candidates-Keeps author.team_name (author.id ∷ [])) λ users.
                  Triple-given _ λ from. Triple-bind _ _ (Triple-pick e users 2) λ ids.
                    Triple-given _ λ h. Triple-bind _ _ (Triple-now e) λ time.
                      Triple-bind _ _
                        (create_pull_request-Keeps e d₀ _ ids (
                          picked-IsNew _ author.team_name from.0 users ids refl
                            (rw same (validate_user_id-named author_id valid)) from.1 h))
                        λ created.
                          Triple-bind _ _ (Triple-update_metrics _) λ _. Triple-pure _ (λ d k. k)))

-- A pull request that was read, by an author who stays its author.
pub record Reading (d₀ : Db) (p author : String) (d : Db) : Type 0 where
  pub kept : IsKept d₀ d
  pub row : PrRow
  pub found : find_pr p d.prs ≡ some row
  pub same_author : row.author_id ≡ author

pub Reading-NotAuthor :
    (e : Env) {d₀ : Db} (p author new : String) (d : Db)
    → (author == new) ≡ false
    → Reading d₀ p author d
    → IsKept d₀ d × NotAuthor e d₀ p new d
Reading-NotAuthor e p author new d other h =
    (h.kept, λ row found. ground (arith, h.found, h.same_author))

-- The first of a list that is not empty.
pub Triple-first :
    {P X : Db → Type 0} (ids : List String)
    → 0 < length ids
    → Triple P (first ids) (λ a d. (0 < count a ids) × P d) X
unfolding count_if
Triple-first [] h = elim h [ ]
Triple-first (a ∷ ids) h = Triple-pure a (λ d p. (rw (eq_refl a) (omega arith), p))

module _ (e : Env) (d₀ : Db) where
  pub pull_request_reads :
      (p : String)
      → Triple
          (IsKept d₀)
          (get_pull_request e p)
          (λ pr d. (is_blank pr.author_id ≡ false) × Reading d₀ p pr.author_id d)
          (IsKept d₀)
  pull_request_reads p =
      Triple-weaken (get_pull_request e p)
        (λ pr d h.
          let same : pr.author_id ≡ h.1.author_id = ap (λ (r : PullRequest). r.author_id) h.3 in
          (
            rw same (h.0.consistent.author_named p h.1 h.2),
            record { kept = h.0; row = h.1; found = h.2; same_author = sym same },
          ))
        (get_pull_request_reads e (λ d k. k) p)

  pub replacement_candidates :
      (p author t : String) (exclude : List String)
      → Triple
          (Reading d₀ p author)
          (list_active_team_members e t exclude)
          (λ users d. FromRows t exclude users × Reading d₀ p author d)
          (IsKept d₀)
  replacement_candidates p author t exclude =
      Triple-weaken (list_active_team_members e t exclude)
        (λ users d h. ((e.scan_users d.users, h.1), h.0))
        (list_active_team_members_reads e (λ d h. h.kept) t exclude)

  -- Whoever is picked is not the author.
  pub picked_other :
      (t old author new : String) (reviewers : List String) (users : List User) (ids : List String)
      → is_blank author ≡ false
      → FromRows t (unique_ids e.iterate (old ∷ author ∷ reviewers)) users
      → IsPickOf (user_ids users) 1 ids
      → 0 < count new ids
      → (author == new) ≡ false
  picked_other t old author new reviewers users ids named from h there =
      let exclude = unique_ids e.iterate (old ∷ author ∷ reviewers) in
      let listed : str_mem author (old ∷ author ∷ reviewers) ≡ true =
        unfold any_of in ground (arith, eq_refl author) in
      let out : count author (user_ids users) ≡ 0 = rw from.1 (
        count-active_members author t exclude from.0
          (str_mem-unique_ids e author (old ∷ author ∷ reviewers) listed named)) in
      ground (arith, eq_iff author new, h.from_candidates author)

  pub pick_nonempty :
      (users : List User) (ids : List String)
      → is_empty users ≡ false
      → IsPickOf (user_ids users) 1 ids
      → 0 < length ids
  pick_nonempty [] ids some_user h = cc
  pick_nonempty (u ∷ us) ids some_user h = omega (arith, h.size)

  -- `pickRandomIDs(candidates, 1)[0]` for candidates that are there: no panic, and not the author.
  pub choose-Keeps :
      (p t old author : String) (reviewers : List String) (users : List User)
      → is_blank author ≡ false
      → FromRows t (unique_ids e.iterate (old ∷ author ∷ reviewers)) users
      → is_empty users ≡ false
      → Triple
          (Reading d₀ p author)
          (pick_one e users)
          (λ new d. ((author == new) ≡ false) × Reading d₀ p author d)
          (IsKept d₀)
  unfolding pick_one
  choose-Keeps p t old author reviewers users named from some_user =
      Triple-bind _ _ (Triple-pick e users 1) λ ids. Triple-given (first ids) λ h.
        Triple-weaken (first ids)
          (λ new d k. (picked_other t old author new reviewers users ids named from h k.0, k.1))
          (Triple-first ids (pick_nonempty users ids some_user h))

  pub service_reassign_reviewer-Keeps :
      (pr_id old : String) → Keeps d₀ (reassign_reviewer e pr_id old)
  unfolding reassign_reviewer
  service_reassign_reviewer-Keeps pr_id old = checked-Keeps e d₀ (validate_pr_id pr_id) _ (
      checked-Keeps e d₀ (validate_user_id old) _ (
        Triple-bind _ _ (pull_request_reads pr_id) λ pr. Triple-given _ λ named.
          Triple-bind _ _ (Triple-raise_if _ (domain err_pr_merged) (λ d h. h.kept) (λ d _ h. h))
            λ _.
              Triple-bind _ _
                (Triple-raise_if _ (domain err_reviewer_absent) (λ d h. h.kept) (λ d _ h. h))
                λ _.
                  Triple-bind _ _
                    (Triple-weaken (get_user_by_id e old) (λ a d h. h.0)
                      (get_user_by_id_reads e (λ d h. h.kept) old))
                    λ old_user.
                      Triple-bind _ _
                        (replacement_candidates pr_id pr.author_id old_user.team_name _)
                        λ users. Triple-given _ λ from.
                          Triple-bind _ _
                            (Triple-raise_if
                              {Q = λ d. (is_empty users ≡ false) × Reading d₀ pr_id pr.author_id d}
                              (is_empty users) (domain err_no_candidate) (λ d h. h.kept)
                              (λ d some_user h. (some_user, h)))
                            λ _. Triple-given _ λ some_user.
                              Triple-bind _ _
                                (choose-Keeps pr_id old_user.team_name old pr.author_id
                                  pr.assigned_reviewers users named from some_user)
                                λ new. Triple-given _ λ other.
                                  Triple-bind _ _
                                    (Triple-from _
                                      (λ d h. Reading-NotAuthor e pr_id pr.author_id new d other h)
                                      (replace_reviewer-Keeps e d₀ pr_id old new "MANUAL_REASSIGN"))
                                    λ replaced.
                                      Triple-bind _ _ (Triple-update_metrics _)
                                        λ _. Triple-pure _ (λ d k. k)))
