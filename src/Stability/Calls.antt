-- ===== src/Stability/Calls.antt =====
-- The keys and the history over what a function does in `WithTransaction`.
use pr_reviewer_service.Prelude.{List}
use pr_reviewer_service.Repository.Monad.{World, Env}
use pr_reviewer_service.Repository.Interface.{Call, calls, transactional}
use pr_reviewer_service.Integrity.Deactivation.{After-always}
use pr_reviewer_service.Stability.Transaction.{with_transaction-Holds}
use pr_reviewer_service.Stability.Keys.{IsKeyed}
use pr_reviewer_service.Stability.Keys.Requests.{Stable-IsKeyed}
use pr_reviewer_service.Stability.History.{Extends}
use pr_reviewer_service.Stability.History.Requests.{Stable-Extends, Extends-same}

-- Whatever calls of the interface a function makes in `WithTransaction`, one after the other up to
-- the first error, and however calls to the driver fail, the keys of the tables hold if they held
-- before, and nothing is taken back: the audit log and the teams only gain rows, and users and pull
-- requests that were there are there, with what of their rows never changes.
pub with_transaction-Keeps :
    (e : Env) (cs : List Call) (w : World)
    → IsKeyed w.db
    → let d = ((transactional e).with_transaction (calls cs) w).1.db in IsKeyed d × Extends w.db d
with_transaction-Keeps e cs w k =
    let out = (transactional e).with_transaction (calls cs) w in
    (
      After-always IsKeyed out.0 out.1.db ((with_transaction-Holds Stable-IsKeyed e cs).at w k),
      After-always (Extends w.db) out.0 out.1.db
          ((with_transaction-Holds (Stable-Extends w.db) e cs).at w (Extends-same w.db)),
    )
