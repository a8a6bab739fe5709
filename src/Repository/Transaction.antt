-- ===== src/Repository/Transaction.antt =====
-- `Storage.WithTx` of internal/repository/storage.go.
pub mod Laws
use pr_reviewer_service.Prelude.{ℕ, suc, Option, none, some, if◌then◌else◌}
use pr_reviewer_service.Database.Schema.{Db}
use pr_reviewer_service.Database.Statements.{fault}
use pr_reviewer_service.Repository.Monad.{
  Result, ok, err, panic, World, sql, Env, M, send, continue,
}

abbrev pub rollback : Db → World → World
rollback before w = record w { db = before }

-- The answer to COMMIT. One that fails may have been carried out.
abbrev pub committed : {A : Type 0} → Env → A → Db → Option ℕ → World → Result A × World
committed e a before none w = (ok a, w)
committed e a before (some c) w =
    (err (sql (fault c)), if e.lands w.sent then w else rollback before w)

-- What follows the body: COMMIT, or ROLLBACK on an error and on a panic, which goes on.
abbrev pub finish : {A : Type 0} → Env → Db → Result A → World → Result A × World
finish e before (ok a) w = committed e a before (e.fault w.sent) (record w { sent = suc w.sent })
finish e before (err x) w = (err x, rollback before w)
finish e before panic w = (panic, rollback before w)

abbrev pub attempt : {A : Type 0} → Env → (ℕ → M A) → World → Result A × World
attempt e body w = let (r, w') = body (e.clock w.sent) w in finish e w.db r w'

-- The body is handed the time of the transaction, which `NOW()` returns throughout.
unfoldable pub with_tx : {A : Type 0} → Env → (ℕ → M A) → M A
with_tx e body w = let (r, w') = send e w in continue r (λ _. attempt e body) w'
