-- ===== src/Stability.antt =====
-- Predicates on the tables that no single statement of the repository breaks. They hold after every
-- program that is put together from these statements, so that the modules below go through the
-- repository, the service and the routes once, for all such predicates.
pub mod Storage
pub mod Service
pub mod Transaction
pub mod Requests
pub mod Keys
pub mod History
pub mod Calls
pub mod Telemetry
use pr_reviewer_service.Prelude.{ℕ, String, Bool, List, [], ◌∷◌}
use pr_reviewer_service.Domain.{PrStatus}
use pr_reviewer_service.Database.Schema.{UserRow, PrRow, EventType, assigned, unassigned, Db}
use pr_reviewer_service.Database.Statements.{
  insert_team, upsert_user, update_activity, insert_pr, update_status, insert_reviewer,
  delete_reviewer, insert_event,
}
use pr_reviewer_service.Repository.Triple.{Succeeds}
use pr_reviewer_service.Repository.PullRequests.{reviewers_batch, removal_batch}
use pr_reviewer_service.Integrity.Batches.{Succeeds-and_then}

-- One field for each statement that writes.
pub record Stable (I : Db → Type 0) : Type 0 where
  pub team : (now : ℕ) (t : String) (d : Db) → I d → Succeeds I (insert_team now t d)
  pub user : (new : UserRow) (d : Db) → I d → Succeeds I (upsert_user new d)
  pub activity :
      (chosen : String → Bool) (active : Bool) (now : ℕ) (d : Db)
      → I d
      → I (update_activity chosen active now d)
  pub pull_request : (row : PrRow) (d : Db) → I d → Succeeds I (insert_pr row d)
  pub status : (p : String) (s : PrStatus) (now : ℕ) (d : Db) → I d → I (update_status p s now d)
  pub reviewer : (now : ℕ) (p r : String) (d : Db) → I d → Succeeds I (insert_reviewer now p r d)
  pub removal : (p r : String) (d : Db) → I d → I (delete_reviewer p r d)
  pub event :
      (now : ℕ) (p r : String) (kind : EventType) (source : String) (d : Db)
      → I d
      → Succeeds I (insert_event now p r kind source d)

module _ {I : Db → Type 0} (s : Stable I) (time : ℕ) (p source : String) where
  pub Stable-reviewers_batch :
      (rs : List String) (d : Db) → I d → Succeeds I (reviewers_batch time p rs source d)
  unfolding reviewers_batch
  Stable-reviewers_batch [] d h = h
  Stable-reviewers_batch (r ∷ rs) d h = Succeeds-and_then I I _ _ (s.reviewer time p r d h) λ d1 h1.
      Succeeds-and_then I I _ _ (s.event time p r assigned source d1 h1)
        λ d2 h2. Stable-reviewers_batch rs d2 h2

  pub Stable-removal_batch :
      (r : String) (d : Db) → I d → Succeeds I (removal_batch time p r source d)
  unfolding removal_batch
  Stable-removal_batch r d h =
      s.event time p r unassigned source (delete_reviewer p r d) (s.removal p r d h)
