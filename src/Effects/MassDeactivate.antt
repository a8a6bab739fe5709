-- ===== src/Effects/MassDeactivate.antt =====
-- `MassDeactivate` of internal/service/service.go as a whole: the team is read, the targets are
-- found among its members, and the closure runs under the transaction manager.
use mathlib.Core.Option
use pr_reviewer_service.Prelude.{
  String, ◌≡◌, refl, sym, ◌∙◌, ◌⊎◌, inl, inr, ◌≢◌, Option, none, some, List, [], ◌∷◌, arith, any_of,
}
use pr_reviewer_service.Domain.{User}
use pr_reviewer_service.Validation.{validate_team_name}
use pr_reviewer_service.Database.Schema.{UserRow, Db, find_user, empty_db}
use pr_reviewer_service.Database.Queries.{team_members}
use pr_reviewer_service.Repository.Monad.{
  execute_query, wrap, Result, ok, err, panic, World, Env, M, lift,
}
use pr_reviewer_service.Repository.Triple.{
  After, Triple, Triple-pure, Triple-bind, Triple-on_error, Triple-to_sql, Triple-query,
  Triple-given, Triple-weaken, Triple-widen, Triple-both,
}
use pr_reviewer_service.Repository.Teams.{get_team}
use pr_reviewer_service.Service.Deactivation.{
  MassDeactivateInput, MassDeactivateResult, nothing_done, targets, deactivate_targets, run_targets,
  mass_deactivate,
}
use pr_reviewer_service.Integrity.Reads.{members_reads}
use pr_reviewer_service.Integrity.Checks.{Triple-checked, Triple-check_ids}
use pr_reviewer_service.Integrity.Deactivation.{Managed, Manages, targets-no_panic}
use pr_reviewer_service.Effects.Deactivate.{switched, Deactivated, deactivate_targets_triple}
use pr_reviewer_service.Effects.Report.{Released, Untouched}
use pr_reviewer_service.Effects.Report
use pr_reviewer_service.Effects.Targets.{Targeted, targets-Targeted}

-- The closure ran to its end.
pub record Finished (d₀ : Db) (ids : List String) (res : MassDeactivateResult) (d : Db)
    : Type 0 where
  pub deactivated : Deactivated d₀ ids d
  pub released : Released d₀ ids res d

-- The closure stopped before any review was handed over.
pub record Stopped (d₀ : Db) (ids : List String) (d : Db) : Type 0 where
  pub users : (d.users ≡ d₀.users) ⊎ Deactivated d₀ ids d
  pub untouched : Untouched d₀ d

-- A success, for targets that the request asked for.
pub record Succeeded (d₀ : Db) (input : MassDeactivateInput) (res : MassDeactivateResult) (d : Db)
    : Type 0 where
  pub ids : List String
  pub targeted : Targeted d₀ input.team_name input.user_ids ids
  pub finished : Finished d₀ ids res d

-- What an error may leave: everything as it was, a closure that stopped, or one that ran to its end
-- before the transaction manager reported an error.
pub data Failed (d₀ : Db) (input : MassDeactivateInput) (d : Db) : Type 0 where
  unchanged : d ≡ d₀ → Failed d₀ input d
  stopped :
      (ids : List String)
      → Targeted d₀ input.team_name input.user_ids ids
      → Stopped d₀ ids d
      → Failed d₀ input d
  uncommitted :
      (ids : List String) (res : MassDeactivateResult)
      → Targeted d₀ input.team_name input.user_ids ids
      → Finished d₀ ids res d
      → Failed d₀ input d

closure_lem :
    (e : Env) (t i : String) (is : List String) (d₀ : Db) (w : World)
    → w.db ≡ d₀
    → After
        (Finished d₀ (i ∷ is))
        (Stopped d₀ (i ∷ is))
        (deactivate_targets e t (i ∷ is) w).0
        (deactivate_targets e t (i ∷ is) w).1.db
closure_lem e t i is d₀ w same = rw (sym same) (closure.at w refl)
  where
    m : M MassDeactivateResult
    m = deactivate_targets e t (i ∷ is)

    both :
        Triple
          (λ d. d ≡ w.db)
          m
          (λ res d. Deactivated w.db (i ∷ is) d × Released w.db (i ∷ is) res d)
          (λ d. ((d.users ≡ w.db.users) ⊎ Deactivated w.db (i ∷ is) d) × Untouched w.db d)
    both =
        Triple-both m (deactivate_targets_triple e w.db i is t)
          (Report.deactivate_targets_triple e w.db i is t)

    closure : Triple (λ d. d ≡ w.db) m (Finished w.db (i ∷ is)) (Stopped w.db (i ∷ is))
    closure =
        Triple-widen m (λ d k. record { users = k.0; untouched = k.1 })
          (Triple-weaken m (λ res d k. record { deactivated = k.0; released = k.1 }) both)

switched_none : (o : Option UserRow) → o ≡ Option.map (switched [] 0) o
unfolding any_of
switched_none none = refl
switched_none (some x) = refl

-- No targets, nothing done.
nobody-Finished : (d : Db) → Finished d [] nothing_done d
unfolding any_of
nobody-Finished d = record {
  deactivated = record { time = 0; users = λ u. switched_none (find_user u d.users) };
  released = record {
    prs = refl;
    fewer = λ p s k. omega arith;
    reported = λ u p k there. absurd (ground (arith, k));
    cleared = λ u p row k kept found is_open. absurd (ground (arith, k));
  };
}

module _ (e : Env) (d₀ : Db) (input : MassDeactivateInput) where
  abbrev members : List User
  members = team_members e.text_le input.team_name (e.scan_users d₀.users)

  reading :
      Triple
        (λ d. d ≡ d₀)
        (get_team e input.team_name)
        (λ team d. (team ≡ record { name = input.team_name; members = members }) × (d ≡ d₀))
        (Failed d₀ input)
  unfolding get_team
  reading = Triple-bind _ _ (Triple-to_sql e (λ d h. unchanged h)) λ _.
      Triple-bind _ _
        (Triple-on_error (wrap execute_query) _ (
          Triple-query e (λ d h. unchanged h) {Q = λ ms d. (ms ≡ members) × (d ≡ d₀)} _
            (λ d h. (rw h refl, h))))
        λ ms. Triple-given _ λ same.
          Triple-weaken _ (λ team d h. (rw same at h.0, h.1))
            (members_reads e (λ d h. unchanged h) input.team_name ms)

  finding :
      (r : Result (List String))
      → r ≢ panic
      → Triple (λ d. d ≡ d₀) (lift r) (λ ids d. (r ≡ ok ids) × (d ≡ d₀)) (Failed d₀ input)
  finding (ok ids) h = record { at = λ w k. (refl, k) }
  finding (err x) h = record { at = λ w k. unchanged k }
  finding panic h = absurd (h refl)

  module _ (do_tx : M MassDeactivateResult → M MassDeactivateResult) (manager : Manages do_tx) where
    managed_lem :
        (ids : List String) (m : M MassDeactivateResult) (w : World)
        (out : Result MassDeactivateResult × World)
        → Targeted d₀ input.team_name input.user_ids ids
        → w.db ≡ d₀
        → ((w₁ : World)
            → w₁.db ≡ d₀
            → After (Finished d₀ ids) (Stopped d₀ ids) (m w₁).0 (m w₁).1.db)
        → Managed m w out
        → After (Succeeded d₀ input) (Failed d₀ input) out.0 out.1.db
    managed_lem ids m w out h k ran (inl (x, failed, same)) = rw failed (unchanged (same ∙ k))
    managed_lem ids m w out h k ran (inr (w₁, same, left, inl as_is)) =
        rw (as_is, left) (inner (m w₁).0 (m w₁).1.db (ran w₁ (same ∙ k)))
      where
        inner :
            (r : Result MassDeactivateResult) (d : Db)
            → After (Finished d₀ ids) (Stopped d₀ ids) r d
            → After (Succeeded d₀ input) (Failed d₀ input) r d
        inner (ok a) d f = record { ids = ids; targeted = h; finished = f }
        inner (err x) d f = stopped ids h f
        inner panic d f = f
    managed_lem ids m w out h k ran (inr (w₁, same, left, inr (x, failed))) =
        rw (failed, left) (inner (m w₁).0 (m w₁).1.db (ran w₁ (same ∙ k)))
      where
        inner :
            (r : Result MassDeactivateResult) (d : Db)
            → After (Finished d₀ ids) (Stopped d₀ ids) r d
            → Failed d₀ input d
        inner (ok a) d f = uncommitted ids a h f
        inner (err x) d f = stopped ids h f
        inner panic d f = absurd f

    running :
        (ids : List String)
        → Targeted d₀ input.team_name input.user_ids ids
        → Triple
            (λ d. d ≡ d₀)
            (run_targets e do_tx input.team_name ids)
            (Succeeded d₀ input)
            (Failed d₀ input)
    unfolding run_targets
    running [] h =
        Triple-pure nothing_done
          (λ d k. record { ids = []; targeted = h; finished = rw k (nobody-Finished d₀) })
    running (i ∷ is) h = record {
      at = λ w k.
          let m = deactivate_targets e input.team_name (i ∷ is) in
          managed_lem (i ∷ is) m w (do_tx m w) h k (λ w₁. closure_lem e input.team_name i is d₀ w₁)
            (manager.outcome m w);
    }

    mass_deactivate_triple :
        Triple (λ d. d ≡ d₀) (mass_deactivate e do_tx input) (Succeeded d₀ input) (Failed d₀ input)
    unfolding mass_deactivate
    mass_deactivate_triple =
        Triple-checked (λ d h. unchanged h) (validate_team_name input.team_name) _
          (Triple-bind _ _ (Triple-check_ids (λ d h. unchanged h) input.user_ids) λ _.
            Triple-bind _ _ reading λ team. Triple-given _ λ read.
              Triple-bind _ _
                (finding (targets team.members input.user_ids)
                  (targets-no_panic e empty_db team.members input.user_ids))
                λ ids. Triple-given _ λ found. rw read (
                  running ids
                    (targets-Targeted e d₀ input.team_name input.user_ids ids (rw read at found))))

-- `MassDeactivate` from any state, under a transaction manager that does as it documents. On success
-- the targets are active members of the team: all of them where no user is named, else the active
-- ones among the named users, all of whom are in the team. The targets are inactive, with nothing
-- else of their rows changed but the time of the update, and every other user is as before. No
-- target has gained a review, none reviews a pull request that the report says was taken from them,
-- and one whom the report does not name as skipped reviews no pull request that is open. On an error
-- nothing has changed, or the closure stopped before it handed over a review, or it ran to its end
-- and the manager reported an error all the same. There is no panic.
pub mass_deactivate_outcome :
    (e : Env) (do_tx : M MassDeactivateResult → M MassDeactivateResult)
    → Manages do_tx
    → (input : MassDeactivateInput) (w : World)
    → let (r, w') = mass_deactivate e do_tx input w in
      After (Succeeded w.db input) (Failed w.db input) r w'.db
mass_deactivate_outcome e do_tx manager input w =
    (mass_deactivate_triple e w.db input do_tx manager).at w refl
