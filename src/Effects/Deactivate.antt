-- ===== src/Effects/Deactivate.antt =====
-- What the closure of `MassDeactivate` does to the users.
use mathlib.Core.Option
use pr_reviewer_service.Prelude.{
  ℕ, String, ◌≡◌, refl, ◌∙◌, ap, ◌⊎◌, inl, inr, false, List, [], ◌∷◌, map, arith, str_mem,
  if◌then◌else◌,
}
use pr_reviewer_service.Domain.{User}
use pr_reviewer_service.Database.Schema.{UserRow, Db, find_user}
use pr_reviewer_service.Database.Statements.{with_activity, update_activity}
use pr_reviewer_service.Repository.Monad.{Result, ok, err, panic, World, Env, M}
use pr_reviewer_service.Repository.Triple.{
  Triple, Triple-pure, Triple-bind, Triple-query, Triple-exec, Triple-with_tx, Triple-weaken,
  Triple-widen, Triple-given, Triple-update_metrics, After,
}
use pr_reviewer_service.Repository.Users.{deactivate_users}
use pr_reviewer_service.Repository.PullRequests.{replace_reviewer}
use pr_reviewer_service.Repository.Listings.{Dict, entries}
use pr_reviewer_service.Service.Assignment.{first, pick_one}
use pr_reviewer_service.Service.Deactivation.{
  MassDeactivateResult, next_pull_request, choose_new, hand_over, hand_over_all, hand_over_users,
  deactivate_targets,
}
use pr_reviewer_service.Integrity.Reads.{
  list_active_team_members_reads, get_pull_request_reads, list_open_prs_by_reviewer_reads,
}
use pr_reviewer_service.Integrity.Candidates.{Triple-pick}
use pr_reviewer_service.Integrity.Assignment.{Triple-first, pick_nonempty}
use pr_reviewer_service.Effects.Replace.{Succeeded, replace_reviewer_effect}

-- The row of a user after the update.
abbrev pub switched : List String → ℕ → UserRow → UserRow
switched ids time x = if str_mem x.user_id ids then with_activity false time x else x

find_user-switched :
    (ids : List String) (time : ℕ) (u : String) (rows : List UserRow)
    → find_user u (map (switched ids time) rows) ≡ Option.map (switched ids time) (find_user u rows)
unfolding find_user
find_user-switched ids time u [] = refl
find_user-switched ids time u (x ∷ rows) = ground (arith, find_user-switched ids time u rows)

-- The users are `users₀`, in every outcome.
abbrev KeepsUsers : {A : Type 0} → List UserRow → M A → Type 0
KeepsUsers users₀ m =
    Triple (λ d. d.users ≡ users₀) m (λ a d. d.users ≡ users₀) (λ d. d.users ≡ users₀)

module _ (e : Env) (us : List UserRow) where
  replace_keeps : (p old new source : String) → KeepsUsers us (replace_reviewer e p old new source)
  replace_keeps p old new source = record {
    at = λ w same.
        (Triple-widen (replace_reviewer e p old new source) (λ d h. unchanged d h same)
            (Triple-weaken _ (λ res d h. h.1.effect.others.users ∙ same)
              (replace_reviewer_effect e w.db p old new source))).at
          w refl;
  }
    where
      unchanged :
          {d₁ : Db} (d : Db)
          → (d ≡ d₁) ⊎ Succeeded d₁ p old new source d
          → d₁.users ≡ us
          → d.users ≡ us
      unchanged d (inl h) same = ap (λ (x : Db). x.users) h ∙ same
      unchanged d (inr h) same = h.effect.others.users ∙ same

  choose_new_keeps : (users : List User) → KeepsUsers us (choose_new e users)
  unfolding choose_new pick_one
  choose_new_keeps [] = Triple-pure "" (λ d h. h)
  choose_new_keeps (c ∷ cs) = Triple-bind _ _ (Triple-pick e (c ∷ cs) 1) λ ids.
      Triple-given (first ids) λ h.
        Triple-weaken (first ids) (λ new d k. k.1)
          (Triple-first ids (
            pick_nonempty e
              (record { teams = []; users = []; prs = []; reviewers = []; events = [] }) (c ∷ cs)
              ids refl h))

  hand_over_keeps : (t user p : String) → KeepsUsers us (hand_over e t user p)
  unfolding hand_over
  hand_over_keeps t user p =
      Triple-bind _ _
        (Triple-weaken _ {R = λ pr d. d.users ≡ us} (λ pr d h. h.0)
          (get_pull_request_reads e (λ d h. h) p))
        λ pr.
          Triple-bind _ _
            (Triple-weaken _ {R = λ users d. d.users ≡ us} (λ users d h. h.0)
              (list_active_team_members_reads e (λ d h. h) t _))
            λ users. Triple-bind _ _ (choose_new_keeps users) λ new.
              Triple-bind _ _ (replace_keeps p user new "TEAM_DEACTIVATION")
                λ replaced. Triple-update_metrics _

  abbrev Handed : Result (Unit {0}) → Db → Type 0
  Handed r d = After (λ _ x. x.users ≡ us) (λ x. x.users ≡ us) r d

  next_keeps :
      (rest : MassDeactivateResult → M MassDeactivateResult) (user p : String)
      (res : MassDeactivateResult) (r : Result (Unit {0}))
      → ((res' : MassDeactivateResult) → KeepsUsers us (rest res'))
      → Triple
          (Handed r)
          (next_pull_request e rest user p res r)
          (λ _ d. d.users ≡ us)
          (λ d. d.users ≡ us)
  unfolding next_pull_request
  next_keeps rest user p res (ok done) h = h _
  next_keeps rest user p res (err x) h = Triple-pure _ (λ d k. k)
  next_keeps rest user p res panic h = record { at = λ w k. k }

  hand_over_all_keeps :
      (t user : String) (ps : List String) (res : MassDeactivateResult)
      → KeepsUsers us (hand_over_all e t user ps res)
  unfolding hand_over_all
  hand_over_all_keeps t user [] res = Triple-pure res (λ d k. k)
  hand_over_all_keeps t user (p ∷ ps) res = record {
    at = λ w k.
        let (r, w') = hand_over e t user p w in
        (next_keeps (hand_over_all e t user ps) user p res r
            (λ res'. hand_over_all_keeps t user ps res')).at
          w' ((hand_over_keeps t user p).at w k);
  }

  hand_over_users_keeps :
      (t : String) (open_prs : Dict (List String)) (ids : List String) (res : MassDeactivateResult)
      → KeepsUsers us (hand_over_users e t open_prs ids res)
  unfolding hand_over_users
  hand_over_users_keeps t open_prs [] res = Triple-pure res (λ d k. k)
  hand_over_users_keeps t open_prs (u ∷ ids) res =
      Triple-bind _ _ (hand_over_all_keeps t u (entries u open_prs) res)
        (hand_over_users_keeps t open_prs ids)

-- The users of `ids` are inactive; everything else of them, and every other user, is as it was.
pub record Deactivated (d₀ : Db) (ids : List String) (d : Db) : Type 0 where
  pub time : ℕ
  pub users :
      (u : String) → find_user u d.users ≡ Option.map (switched ids time) (find_user u d₀.users)

pub Switched-Deactivated :
    (d₀ : Db) (ids : List String) (t : ℕ) (d : Db)
    → d.users ≡ map (switched ids t) d₀.users
    → Deactivated d₀ ids d
Switched-Deactivated d₀ ids t d same = record {
  time = t;
  users = λ u. ap (find_user u) same ∙ find_user-switched ids t u d₀.users;
}

-- The tables after the update of the users, at some time.
abbrev pub Switched : Db → List String → Db → Type 0
Switched d₀ ids d = (t : ℕ) × (d ≡ record d₀ { users = map (switched ids t) d₀.users })

module _ (e : Env) (d₀ : Db) (i : String) (is : List String) where
  -- What an error may leave.
  abbrev Half : Db → Type 0
  Half d = (d.users ≡ d₀.users) ⊎ Deactivated d₀ (i ∷ is) d

  switched_users :
      (d : Db) (h : Switched d₀ (i ∷ is) d) → d.users ≡ map (switched (i ∷ is) h.0) d₀.users
  switched_users d h = ap (λ (x : Db). x.users) h.1

  Switched-Half : (d : Db) → Switched d₀ (i ∷ is) d → Half d
  Switched-Half d h = inr (Switched-Deactivated d₀ (i ∷ is) h.0 d (switched_users d h))

  pub deactivate_users_triple :
      Triple
        (λ d. d ≡ d₀)
        (deactivate_users e (i ∷ is))
        (λ _. Switched d₀ (i ∷ is))
        (λ d. (d ≡ d₀) ⊎ Switched d₀ (i ∷ is) d)
  unfolding deactivate_users update_activity
  deactivate_users_triple =
      Triple-bind _ _
        (Triple-with_tx {Y = λ d. Unit {0}} e _ (λ d h. inl h) (λ _ d h. inr h)
          (λ t.
            Triple-exec e (λ d h. tt) {Q = Switched d₀ (i ∷ is)} _ (λ d same. (t, rw same refl))))
        λ _. Triple-query e (λ d h. inr h) _ (λ d h. h)

  Half-of : (d : Db) → (d ≡ d₀) ⊎ Switched d₀ (i ∷ is) d → Half d
  Half-of d (inl same) = inl (ap (λ (x : Db). x.users) same)
  Half-of d (inr h) = Switched-Half d h

  -- The reviews are handed over, whatever the time of the update was.
  handing_over :
      (t : String) (open_prs : Dict (List String)) (res : MassDeactivateResult)
      → Triple
          (Switched d₀ (i ∷ is))
          (hand_over_users e t open_prs (i ∷ is) res)
          (λ _. Deactivated d₀ (i ∷ is))
          Half
  handing_over t open_prs res = record {
    at = λ w h.
        let done : (d : Db)
            → d.users ≡ map (switched (i ∷ is) h.0) d₀.users
            → Deactivated d₀ (i ∷ is) d =
          λ d k. Switched-Deactivated d₀ (i ∷ is) h.0 d k in
        (Triple-widen (hand_over_users e t open_prs (i ∷ is) res) (λ d k. inr (done d k))
            (Triple-weaken _ (λ _ d k. done d k)
              (hand_over_users_keeps e (map (switched (i ∷ is) h.0) d₀.users) t open_prs (i ∷ is)
                res))).at
          w (switched_users w.db h);
  }

  pub deactivate_targets_triple :
      (t : String)
      → Triple (λ d. d ≡ d₀) (deactivate_targets e t (i ∷ is)) (λ _. Deactivated d₀ (i ∷ is)) Half
  unfolding deactivate_targets
  deactivate_targets_triple t =
      Triple-bind _ _ (Triple-widen _ Half-of deactivate_users_triple) λ deactivated.
        Triple-bind _ _ (list_open_prs_by_reviewer_reads e (λ d h. Switched-Half d h) (i ∷ is))
          λ open_prs. handing_over t open_prs _

-- The closure that `MassDeactivate` runs, for the targets `i ∷ is` and from any state. On success
-- every target that is a user is inactive, with nothing else of the row changed but the time of its
-- update, and every other user is as before, though reviews are handed over in between. On an error
-- the users are as before or all the targets are inactive. There is no panic.
pub deactivate_targets_outcome :
    (e : Env) (t i : String) (is : List String) (w : World)
    → let (r, w') = deactivate_targets e t (i ∷ is) w in
      After
        (λ _. Deactivated w.db (i ∷ is))
        (λ d. (d.users ≡ w.db.users) ⊎ Deactivated w.db (i ∷ is) d)
        r
        w'.db
deactivate_targets_outcome e t i is w = (deactivate_targets_triple e w.db i is t).at w refl
