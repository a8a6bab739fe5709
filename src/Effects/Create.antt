-- ===== src/Effects/Create.antt =====
-- The effect of `CreatePullRequest`: the new pull request, and whom it is assigned to.
use pr_reviewer_service.Prelude.{
  ℕ, String, ◌≡◌, refl, sym, ◌∙◌, ap, ◌⊎◌, inl, inr, none, some, List, [], ◌∷◌, arith, Option-cases,
}
use pr_reviewer_service.Domain.{opened, User, PullRequest}
use pr_reviewer_service.Validation.{validate_pr_id, validate_pr_name, validate_user_id}
use pr_reviewer_service.Picker.{pick}
use pr_reviewer_service.Picker.Laws.{IsPickOf, user_ids}
use pr_reviewer_service.Database.Schema.{UserRow, Db, find_user}
use pr_reviewer_service.Database.Queries.{user_of, active_members}
use pr_reviewer_service.Repository.Monad.{World, Env, ◌>>=◌, now, pure, update_metrics}
use pr_reviewer_service.Repository.Triple.{
  Triple, Triple-pure, Triple-bind, Triple-weaken, Triple-widen, Triple-given, Triple-now,
  Triple-update_metrics, After,
}
use pr_reviewer_service.Repository.Users.{read_user, get_user_by_id, list_active_team_members}
use pr_reviewer_service.Repository.PullRequests
use pr_reviewer_service.Service.Assignment.{count_pull_request, create_pull_request}
use pr_reviewer_service.Integrity.Reads.{get_user_by_id_reads, list_active_team_members_reads}
use pr_reviewer_service.Effects.Growth.{Created, storage_create_effect}
use pr_reviewer_service.Effects.Reading.{Read}
use pr_reviewer_service.Effects.Choice.{Chosen, picked-Chosen}
use pr_reviewer_service.Integrity.Candidates.{Triple-check, Triple-pick, read_user-id}

pub map_right : {A B C : Type 0} → (B → C) → A ⊎ B → A ⊎ C
map_right f (inl a) = inl a
map_right f (inr b) = inr (f b)

-- A pull request that was created and assigned.
pub record Assigned (d₀ : Db) (pr_id name author : String) (d : Db) : Type 0 where
  pub pr : PullRequest
  pub given : (pr.id ≡ pr_id) × (pr.name ≡ name) × (pr.author_id ≡ author) × (pr.status ≡ opened)
  pub row : UserRow
  pub author_known : find_user author d₀.users ≡ some row
  pub ids : List String
  pub chosen : Chosen d₀ author row.team_name ids
  pub created : Created d₀ pr ids d

pub read_user-row :
    (u : String) (d : Db) (user : User)
    → read_user u d ≡ some user
    → (row : UserRow) × (find_user u d.users ≡ some row) × (user ≡ user_of row)
read_user-row u d user h = elim (Option-cases (find_user u d.users)) [
  | inl missing ↦ absurd (ground arith)
  | inr (row, found) ↦ (row, found, ground arith)
]

pub read-Chosen :
    (e : Env) (d₀ : Db) (author : String) (row : UserRow) (user : User) (users : List User)
    (ids : List String)
    → user ≡ user_of row
    → user.id ≡ author
    → users ≡ active_members user.team_name (user.id ∷ []) (e.scan_users d₀.users)
    → IsPickOf (user_ids users) 2 ids
    → Chosen d₀ author row.team_name ids
read-Chosen e d₀ author row user users ids shape same from pick =
    picked-Chosen e d₀ author row.team_name ids (rw (from, same, shape) at pick)

-- The pull request that `CreatePullRequest` builds.
abbrev pub new_request : String → String → User → ℕ → PullRequest
new_request pr_id name author time = record {
  id = pr_id;
  name = name;
  author_id = author.id;
  status = opened;
  assigned_reviewers = [];
  created_at = time;
  merged_at = none;
}

module _ (e : Env) (d₀ : Db) where
  assigning_triple :
      (pr : PullRequest) (name author : String) (row : UserRow) (ids : List String)
      → find_user author d₀.users ≡ some row
      → Chosen d₀ author row.team_name ids
      → (pr.name ≡ name) × (pr.author_id ≡ author) × (pr.status ≡ opened)
      → Triple
          (λ d. d ≡ d₀)
          (PullRequests.create_pull_request e pr ids)
          (λ res d. Assigned d₀ pr.id name author d × Read d pr.id res)
          (λ d. (d ≡ d₀) ⊎ Assigned d₀ pr.id name author d)
  assigning_triple pr name author row ids known chosen given =
      let whole : (d : Db) → Created d₀ pr ids d → Assigned d₀ pr.id name author d = λ d h. record {
        pr = pr;
        given = (refl, given.0, given.1, given.2);
        row = row;
        author_known = known;
        ids = ids;
        chosen = chosen;
        created = h;
      } in
      Triple-widen _ (λ d h. map_right (whole d) h)
        (Triple-weaken _ (λ res d h. (whole d h.0, h.1)) (storage_create_effect e d₀ pr ids))

  -- From the candidates on.
  picking_triple :
      (pr_id name author : String) (user : User)
      → read_user author d₀ ≡ some user
      → Triple
          (λ d. d ≡ d₀)
          (list_active_team_members e user.team_name (user.id ∷ []) >>= λ candidates.
            pick e candidates 2 >>= λ reviewers. now e >>= λ time.
            PullRequests.create_pull_request e (new_request pr_id name user time) reviewers
            >>= λ created. update_metrics count_pull_request >>= λ _. pure created)
          (λ res d. Assigned d₀ pr_id name author d × Read d pr_id res)
          (λ d. (d ≡ d₀) ⊎ Assigned d₀ pr_id name author d)
  picking_triple pr_id name author user read =
      let (row, known, shape) = read_user-row author d₀ user read in
      let same : user.id ≡ author = read_user-id author d₀ user read in
      Triple-bind _ _
        (Triple-weaken (list_active_team_members e user.team_name (user.id ∷ []))
          {R = λ users d.
            (users ≡ active_members user.team_name (user.id ∷ []) (e.scan_users d₀.users))
            × (d ≡ d₀)}
          (λ users d h. (rw h.0 at h.1, h.0))
          (list_active_team_members_reads e (λ d h. inl h) user.team_name (user.id ∷ [])))
        λ users. Triple-given _ λ from. Triple-bind _ _ (Triple-pick e users 2) λ ids.
          Triple-given _ λ pick. Triple-bind _ _ (Triple-now e) λ time.
            Triple-bind _ _
              (assigning_triple _ name author row ids known
                (read-Chosen e d₀ author row user users ids shape same from pick)
                (refl, same, refl))
              λ created. Triple-bind _ _ (Triple-update_metrics _) λ _. Triple-pure _ (λ d h. h)

  create_effect :
      (pr_id name author : String)
      → Triple
          (λ d. d ≡ d₀)
          (create_pull_request e pr_id name author)
          (λ res d. Assigned d₀ pr_id name author d × Read d pr_id res)
          (λ d. (d ≡ d₀) ⊎ Assigned d₀ pr_id name author d)
  unfolding create_pull_request
  create_effect pr_id name author =
      Triple-bind _ _ (Triple-check (validate_pr_id pr_id) (λ d h. inl h)) λ _. Triple-given _ λ v1.
        Triple-bind _ _ (Triple-check (validate_pr_name name) (λ d h. inl h)) λ _.
          Triple-given _ λ v2.
            Triple-bind _ _ (Triple-check (validate_user_id author) (λ d h. inl h)) λ _.
              Triple-given _ λ v3.
                Triple-bind _ _
                  (Triple-weaken (get_user_by_id e author)
                    {R = λ user d. (read_user author d₀ ≡ some user) × (d ≡ d₀)}
                    (λ user d h. (ap (λ (x : Db). read_user author x) (sym h.0) ∙ h.1, h.0))
                    (get_user_by_id_reads e (λ d h. inl h) author))
                  λ user. Triple-given _ λ read. picking_triple pr_id name author user read

-- `CreatePullRequest` from any state. On success the author was known and the pull request new; its
-- row is written as open, with the name and author that were asked for; its reviewers are active
-- members of the author's team other than the author, as many as there are, and at most two; the log
-- gains an assignment for each of them and keeps its entries; no other pair of a pull request and a
-- reviewer, no other pull request, no user and no team has changed; and the answer is the row with
-- these reviewers. On an error either nothing has changed or all that is written is there. There is
-- no panic.
pub create_pull_request_outcome :
    (e : Env) (pr_id name author : String) (w : World)
    → let (r, w') = create_pull_request e pr_id name author w in
      After
        (λ res d. Assigned w.db pr_id name author d × Read d pr_id res)
        (λ d. (d ≡ w.db) ⊎ Assigned w.db pr_id name author d)
        r
        w'.db
create_pull_request_outcome e pr_id name author w =
    (create_effect e w.db pr_id name author).at w refl
