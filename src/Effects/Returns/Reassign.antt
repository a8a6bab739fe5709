-- ===== src/Effects/Returns/Reassign.antt =====
-- `ReassignReviewer` where no call to the database fails.
use pr_reviewer_service.Prelude.{
  ℕ, ◌≤◌, ◌<◌, String, ◌≡◌, refl, ◌∙◌, ap, true, false, not, ◌&&◌, none, List, [], ◌∷◌, arith,
  is_empty, str_mem, any_of, count_if, count, count_if_mono, any_of-of-count, any_of-count, length,
  ◌==◌, Bool-cases, inl, inr,
}
use pr_reviewer_service.Domain.{
  User, PullRequest, err_pr_merged, err_reviewer_absent, err_no_candidate,
}
use pr_reviewer_service.Validation.{validate_pr_id, validate_user_id}
use pr_reviewer_service.Picker.{unique_ids}
use pr_reviewer_service.Database.Schema.{UserRow, Db, is_reviewer, reviews}
use pr_reviewer_service.Database.Queries.{active_members, eligible}
use pr_reviewer_service.Repository.Monad.{
  ◌>>=◌, pure, raise_if, update_metrics, ok, World, Env, M, domain,
}
use pr_reviewer_service.Repository.Triple.{
  Triple, Triple-pure, Triple-bind, Triple-given, Triple-update_metrics, Triple-weaken, Triple-from,
  Triple-both, Triple-widen,
}
use pr_reviewer_service.Repository.Calm.{Never, calm_query, calm_with_tx}
use pr_reviewer_service.Repository.PullRequests.{
  pull_request_of, replace_reviewer, get_pull_request,
}
use pr_reviewer_service.Integrity.Invariant.{IsConsistent, pair_count}
use pr_reviewer_service.Picker.Laws.{user_ids}
use pr_reviewer_service.Picker.Unique.{count-unique_ids}
use pr_reviewer_service.Effects.Choice.{length-candidates}
use pr_reviewer_service.Effects.Reading.{Read, get_pull_request_triple}
use pr_reviewer_service.Effects.Reassign.{Reassigned, choosing_triple, reassign_reviewer_outcome}
use pr_reviewer_service.Service.Assignment.{pick_one, count_reassignment, reassign_reviewer}
use pr_reviewer_service.Repository.Users.{list_active_team_members}
use pr_reviewer_service.Effects.Returns.Replace.{Reassignable, NamedUsers, free, body_calm}
use pr_reviewer_service.Effects.Takeover.{Fits}
use pr_reviewer_service.Effects.Returns.{returned, get_pull_request_calm, check_calm}
use pr_reviewer_service.Effects.Returns.Create.{raise_if_calm, get_user_by_id_calm}

nonempty : (us : List User) → 0 < length (user_ids us) → is_empty us ≡ false
nonempty [] k = absurd (omega (arith, k))
nonempty (u ∷ us) k = refl

-- A program whose outcome is known and that returns.
Triple-returns :
    {A : Type 0} {P X : Db → Type 0} {Q : A → Db → Type 0} (m : M A)
    → Triple P m Q X
    → Triple P m (λ _ _. Unit {0}) Never
    → Triple P m Q Never
Triple-returns m f g =
    Triple-widen m (λ d k. k.1) (Triple-weaken m (λ a d k. k.0) (Triple-both m f g))

module _ (e : Env) (calm : (n : ℕ) → e.fault n ≡ none) (p old : String) (d : Db)
    (h : Reassignable p old d) (named : NamedUsers d) (consistent : IsConsistent d) where
  -- Who is free is not on the list of those to leave out.
  free_unlisted :
      (assigned : List String) (x : UserRow)
      → ((s : String) → count s assigned ≡ pair_count p s d.reviewers)
      → free d p old h.row.author_id x ≡ true
      → str_mem x.user_id (unique_ids e.iterate (old ∷ h.row.author_id ∷ assigned)) ≡ false
  unfolding is_reviewer any_of
  free_unlisted assigned x same is_free =
      elim (Bool-cases
        (str_mem x.user_id (unique_ids e.iterate (old ∷ h.row.author_id ∷ assigned)))) [
          | inr o ↦ o
          | inl y ↦
              let listed = any_of-count (λ b. b == x.user_id) _ y in
              let once =
                count-unique_ids e.iterate e.iterate_keeps x.user_id
                  (old ∷ h.row.author_id ∷ assigned) in
              let mine = any_of-count (λ b. b == x.user_id) assigned in
              let theirs = any_of-of-count (reviews p x.user_id) d.reviewers in
              absurd (ground (arith, listed, once, mine, theirs, same x.user_id, is_free))
        ]

  -- Somebody is found to choose from.
  candidates_there :
      (assigned : List String)
      → ((s : String) → count s assigned ≡ pair_count p s d.reviewers)
      → is_empty (
          active_members h.old_row.team_name
            (unique_ids e.iterate (old ∷ h.row.author_id ∷ assigned))
            (e.scan_users d.users))
        ≡ false
  candidates_there assigned same =
      let exclude = unique_ids e.iterate (old ∷ h.row.author_id ∷ assigned) in
      let t = h.old_row.team_name in
      let more : count_if (λ x. (x.team_name == t && x.is_active) && free d p old h.row.author_id x)
            d.users
          ≤ count_if (eligible t exclude) d.users =
        count_if_mono _ _ d.users (λ x k. ground (arith, k, free_unlisted assigned x same)) in
      nonempty _ (omega (arith, h.somebody, more, length-candidates e d t exclude))

  reading_calm : Triple (λ x. x ≡ d) (get_pull_request e p) (λ pr x. Read d p pr × (x ≡ d)) Never
  reading_calm =
      Triple-weaken _ (λ pr x k. (k.1, k.0))
        (Triple-returns _ (get_pull_request_triple e d p)
          (Triple-from _ (λ x same. (h.row, rw same h.found)) (get_pull_request_calm e calm p)))

  replacing_calm :
      (new : String)
      → Fits d p old h.row.author_id h.old_row.team_name new
      → Triple (λ x. x ≡ d) (replace_reviewer e p old new "MANUAL_REASSIGN") (λ _ _. Unit {0}) Never
  unfolding replace_reviewer
  replacing_calm new fits =
      Triple-bind _ _
        (calm_with_tx e calm _
          λ t. body_calm p old new d h named consistent t "MANUAL_REASSIGN" fits e calm)
        λ _. Triple-bind _ _ (get_pull_request_calm e calm p) λ pr. Triple-pure _ (λ x k. tt)

  shape : (pr : PullRequest) → Read d p pr → pr ≡ pull_request_of h.row pr.assigned_reviewers
  shape pr read =
      let same : read.row ≡ h.row = ground (arith, read.found, h.found) in
      read.fields ∙ ap (λ r. pull_request_of r pr.assigned_reviewers) same

  old_listed : (pr : PullRequest) → Read d p pr → not (str_mem old pr.assigned_reviewers) ≡ false
  unfolding is_reviewer
  old_listed pr read =
      let theirs = any_of-count (reviews p old) d.reviewers h.is_reviewing in
      let mine =
        any_of-of-count (λ b. b == old) pr.assigned_reviewers
          (omega (arith, theirs, read.reviewers old)) in
      rw mine refl

  -- From the candidates on.
  choosing_calm :
      (pr : PullRequest)
      → Read d p pr
      → Triple
          (λ x. x ≡ d)
          (list_active_team_members e h.old_row.team_name
              (unique_ids e.iterate (old ∷ pr.author_id ∷ pr.assigned_reviewers))
            >>= λ candidates. raise_if (is_empty candidates) (domain err_no_candidate) >>= λ _.
                pick_one e candidates >>= λ new_reviewer.
                replace_reviewer e p old new_reviewer "MANUAL_REASSIGN" >>= λ replaced.
                update_metrics count_reassignment >>= λ _. pure replaced)
          (λ _ _. Unit {0})
          Never
  unfolding list_active_team_members
  choosing_calm pr read =
      let t = h.old_row.team_name in
      let exclude = unique_ids e.iterate (old ∷ pr.author_id ∷ pr.assigned_reviewers) in
      let author : pr.author_id ≡ h.row.author_id =
        ap (λ (x : PullRequest). x.author_id) (shape pr read) in
      let there : is_empty (active_members t exclude (e.scan_users d.users)) ≡ false =
        rw author (candidates_there pr.assigned_reviewers read.reviewers) in
      Triple-bind _ _
        (calm_query e calm
          {Q = λ users x. (users ≡ active_members t exclude (e.scan_users d.users)) × (x ≡ d)} _
          (λ x same. (rw same refl, same)))
        λ users. Triple-given _ λ from.
          let some_user : is_empty users ≡ false = rw from there in
          Triple-bind _ _ (raise_if_calm e calm d _ (domain err_no_candidate) some_user) λ _.
            Triple-bind _ _ (choosing_triple e d p old t pr users read from some_user) λ new.
              Triple-given _ λ fits.
                Triple-bind _ _ (replacing_calm new (rw author at fits)) λ replaced.
                  Triple-bind _ _ (Triple-update_metrics _) λ _. Triple-pure _ (λ x k. tt)

  service_reassign_calm :
      validate_pr_id p ≡ none
      → validate_user_id old ≡ none
      → Triple (λ x. x ≡ d) (reassign_reviewer e p old) (λ _ _. Unit {0}) Never
  unfolding reassign_reviewer
  service_reassign_calm v1 v2 = Triple-bind _ _ (check_calm e calm (validate_pr_id p) v1) λ _.
      Triple-bind _ _ (check_calm e calm (validate_user_id old) v2) λ _.
        Triple-bind _ _ reading_calm λ pr. Triple-given _ λ read.
          let status : pr.status ≡ h.row.status =
            ap (λ (x : PullRequest). x.status) (shape pr read) in
          Triple-bind _ _ (raise_if_calm e calm d _ (domain err_pr_merged) (rw status h.is_open))
            λ _.
              Triple-bind _ _
                (raise_if_calm e calm d _ (domain err_reviewer_absent) (old_listed pr read))
                λ _.
                  Triple-bind _ _ (get_user_by_id_calm e calm d old h.old_row h.old_known)
                    λ user. Triple-given _ λ is_user. rw is_user (choosing_calm pr read)

-- Where no call to the database fails, the tables are consistent and no user has a blank id, a
-- review of an open pull request is reassigned, if some active member of the reviewer's team is
-- neither the reviewer nor the author nor a reviewer already: the answer names such a member, who
-- takes the reviewer's place, and holds the pull request with its reviewers; the log gains an entry
-- for each of the two and keeps its own; no other assignment, team, user or pull request changes.
pub reassign_reviewer_returns :
    (e : Env)
    → ((n : ℕ) → e.fault n ≡ none)
    → (p old : String) (w : World) → validate_pr_id p ≡ none
    → validate_user_id old ≡ none
    → Reassignable p old w.db
    → NamedUsers w.db
    → IsConsistent w.db
    → (res : PullRequest × String) × ((reassign_reviewer e p old w).0 ≡ ok res)
      × Reassigned w.db p old res.1 (reassign_reviewer e p old w).1.db
      × Read (reassign_reviewer e p old w).1.db p res.0
reassign_reviewer_returns e calm p old w v1 v2 h named consistent =
    let (r, w') = reassign_reviewer e p old w in
    let (res, is_returned, whole) =
      returned (λ (res : PullRequest × String) d. Reassigned w.db p old res.1 d × Read d p res.0) _
        r w'.db (reassign_reviewer_outcome e p old w)
        ((service_reassign_calm e calm p old w.db h named consistent v1 v2).at w refl) in
    (res, is_returned, whole.0, whole.1)
