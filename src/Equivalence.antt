-- ===== src/Equivalence.antt =====
-- Programs that do the same: from the same tables they come to the same tables, with the same result
-- or with errors that are the same error of the domain, or both none. This is how `Storage` and
-- `txStorage` are compared, where no call to the driver fails and the clock stands still.
pub mod Rules
pub mod Transactions
pub mod Reads
pub mod Writes
pub mod People
pub mod Teams
pub mod Repositories
use pr_reviewer_service.Prelude.{ℕ, ◌≡◌, Option, none, some}
use pr_reviewer_service.Domain.{DomainError}
use pr_reviewer_service.Database.Schema.{Db}
use pr_reviewer_service.Repository.Monad.{
  Error, domain, invalid, http, sql, wrapped, Result, ok, err, panic, World, Env, M,
}

-- No call fails, and the time is always `t`.
pub record Steady (e : Env) (t : ℕ) : Type 0 where
  pub calm : (n : ℕ) → e.fault n ≡ none
  pub time : (n : ℕ) → e.clock n ≡ t

-- The error of the domain, if it is one.
abbrev pub domain_of : Error → Option DomainError
domain_of (domain x) = some x
domain_of (invalid text) = none
domain_of (http status code text) = none
domain_of (sql x) = none
domain_of (wrapped kind x) = none

abbrev pub Agree : {A : Type 0} → Result A → Db → Result A → Db → Type 0
Agree (ok a) d (ok b) d' = (a ≡ b) × (d ≡ d')
Agree (err x) d (err y) d' = (domain_of x ≡ domain_of y) × (d ≡ d')
Agree panic d panic d' = d ≡ d'
Agree _ d _ d' = ⊥

pub record Same {A : Type 0} (m n : M A) : Type 0 where
  pub at : (w w' : World) → w.db ≡ w'.db → Agree (m w).0 (m w).1.db (n w').0 (n w').1.db
