-- ===== src/Effects/Partial.antt =====
-- A failure in the middle of `MassDeactivate`.
use pr_reviewer_service.Prelude.{ℕ, suc, String, ◌≡◌, refl, none, some, List, ◌∷◌}
use pr_reviewer_service.Database.Statements.{fault, update_activity}
use pr_reviewer_service.Repository.Monad.{sql, err, World, Env, send, query, exec, ◌>>=◌}
use pr_reviewer_service.Repository.Transaction.{with_tx}
use pr_reviewer_service.Repository.Users.{deactivate_users}
use pr_reviewer_service.Repository.Listings.{list_open_prs_by_reviewer}
use pr_reviewer_service.Service.Deactivation.{deactivate_targets}
use pr_reviewer_service.Effects.Deactivate.{Deactivated, Switched-Deactivated}

module _ (e : Env) (w : World) where
  -- The update of the users is carried out and read back, and the query after it fails.
  pub record FailsMidway (c : ℕ) : Type 0 where
    pub begun : e.fault w.sent ≡ none
    pub updated : e.fault (suc w.sent) ≡ none
    pub committed : e.fault (suc (suc w.sent)) ≡ none
    pub read_back : e.fault (suc (suc (suc w.sent))) ≡ none
    pub failed : e.fault (suc (suc (suc (suc w.sent)))) ≡ some c

  -- Where the query for the open pull requests fails, after the update of the users was committed,
  -- the closure of `MassDeactivate` ends with that error and all its targets are inactive: the error
  -- undoes nothing of what the closure has done.
  pub deactivate_targets_partial :
      (c : ℕ) (t i : String) (is : List String)
      → FailsMidway c
      → ((deactivate_targets e t (i ∷ is) w).0 ≡ err (sql (fault c)))
        × Deactivated w.db (i ∷ is) (deactivate_targets e t (i ∷ is) w).1.db
  unfolding deactivate_targets deactivate_users list_open_prs_by_reviewer with_tx exec query send
      ◌>>=◌ update_activity
  deactivate_targets_partial c t i is h =
      rw (h.begun, h.updated, h.committed, h.read_back, h.failed)
        (refl, Switched-Deactivated w.db (i ∷ is) (e.clock (suc w.sent)) _ refl)
