-- ===== src/Repository/Monad.antt =====
-- Programs that send statements to the database, and what their environment decides.
use pr_reviewer_service.Prelude.{
  ℕ, suc, String, ◌≡◌, Bool, Option, none, some, List, count_if, count, if◌then◌else◌,
}
use pr_reviewer_service.Domain.{DomainError}
use pr_reviewer_service.Database.Schema.{PrRow, UserRow, ReviewerRow, Db}
use pr_reviewer_service.Database.Statements.{SqlError, fault, no_rows, Outcome, done, refused}

-- `ErrBuildQuery`, `ErrExecuteQuery` and `ErrScanResult` of internal/repository/utils.go
pub data RepoError : Type 0 where
  build_query execute_query scan_result : RepoError

-- The error values of the program: a domain error, a text made by `errors.New` in validation.go, an
-- `*HTTPError` (status, code, message), an error of the driver, and one that `%w` wraps.
pub data Error : Type 0 where
  domain : DomainError → Error
  invalid : String → Error
  http : ℕ → String → String → Error
  sql : SqlError → Error
  wrapped : RepoError → SqlError → Error

-- `panic` is a run-time panic of Go.
pub data Result (A : Type 0) : Type 0 where
  ok : A → Result A
  err : Error → Result A
  panic : Result A

-- The counters of internal/metrics/business.go
pub record Metrics : Type 0 where
  pub teams_created : ℕ
  pub users_processed : ℕ
  pub pull_requests_created : ℕ
  pub reassignments : ℕ

-- `sent` counts the calls made to the driver and `drawn` the random numbers taken.
pub record World : Type 0 where
  pub db : Db
  pub sent : ℕ
  pub drawn : ℕ
  pub metrics : Metrics

-- What lies outside the program. `fault n` says whether call `n` to the driver fails, `lands n`
-- whether a COMMIT that failed was carried out all the same, `clock n` the time after `n` calls,
-- `random` the numbers of the generator. `text_le` is the collation of the database and
-- `scan_users`, `scan_prs` and `scan_reviewers` the order in which an unordered query meets the rows: any
-- order, each row as often as it stands in the table. `sql_text` is the driver's text of an error,
-- and `iterate` the order in which Go ranges over the keys of a map.
pub record Env : Type 0 where
  pub fault : ℕ → Option ℕ
  pub lands : ℕ → Bool
  pub clock : ℕ → ℕ
  pub random : ℕ → ℕ
  pub text_le : String → String → Bool
  pub sql_text : SqlError → String
  pub iterate : List String → List String
  pub scan_users : List UserRow → List UserRow
  pub scan_prs : List PrRow → List PrRow
  pub scan_reviewers : List ReviewerRow → List ReviewerRow
  pub scan_users_keeps :
      (p : UserRow → Bool) (xs : List UserRow) → count_if p (scan_users xs) ≡ count_if p xs
  pub scan_prs_keeps :
      (p : PrRow → Bool) (xs : List PrRow) → count_if p (scan_prs xs) ≡ count_if p xs
  pub scan_reviewers_keeps :
      (p : ReviewerRow → Bool) (xs : List ReviewerRow)
      → count_if p (scan_reviewers xs) ≡ count_if p xs
  pub iterate_keeps : (a : String) (xs : List String) → count a (iterate xs) ≡ count a xs

abbrev pub M : Type 0 → Type 0
M A = World → Result A × World

abbrev pub pure : {A : Type 0} → A → M A
pure a w = (ok a, w)

abbrev pub raise : {A : Type 0} → Error → M A
raise x w = (err x, w)

abbrev pub crash : {A : Type 0} → M A
crash w = (panic, w)

abbrev pub continue : {A B : Type 0} → Result A → (A → M B) → M B
continue (ok a) f w = f a w
continue (err x) f w = (err x, w)
continue panic f w = (panic, w)

infixl 5 ◌>>=◌ ◌>>◌
unfoldable pub ◌>>=◌ : {A B : Type 0} → M A → (A → M B) → M B
◌>>=◌ m f w = let (r, w') = m w in continue r f w'

abbrev pub ◌>>◌ : {B : Type 0} → M (Unit {0}) → M B → M B
m >> k = m >>= λ _. k

-- An early return with an error.
abbrev pub raise_if : Bool → Error → M (Unit {0})
raise_if b x w = (if b then err x else ok tt, w)

abbrev pub lift : {A : Type 0} → Result A → M A
lift r w = (r, w)

abbrev pub recode_result : {A : Type 0} → (Error → Error) → Result A → Result A
recode_result f (ok a) = ok a
recode_result f (err x) = err (f x)
recode_result f panic = panic

-- What `if err != nil { return ... }` makes of an error.
unfoldable pub on_error : {A : Type 0} → (Error → Error) → M A → M A
on_error f m w = let (r, w') = m w in (recode_result f r, w')

-- `fmt.Errorf("%w: %v", kind, err)`
abbrev pub wrap : RepoError → Error → Error
wrap kind (sql x) = wrapped kind x
wrap kind other = other

-- `errors.Is(err, pgx.ErrNoRows)`; any other error is left to `f`.
abbrev pub not_found : DomainError → (Error → Error) → Error → Error
not_found missing f (sql no_rows) = domain missing
not_found missing f other = f other

abbrev pub same_error : Error → Error
same_error x = x

abbrev pub update_metrics : (Metrics → Metrics) → M (Unit {0})
update_metrics f w = (ok tt, record w { metrics = f w.metrics })

abbrev pub option_result : {A : Type 0} → Option A → Result A
option_result none = err (sql no_rows)
option_result (some a) = ok a

abbrev pub write : Outcome → M (Unit {0})
write (done d) w = (ok tt, record w { db = d })
write (refused x) w = (err (sql x), w)

abbrev pub sending : Option ℕ → Result (Unit {0})
sending none = ok tt
sending (some c) = err (sql (fault c))

module _ (e : Env) where
  -- One call to the driver: it fails here, or it reaches the database.
  unfoldable pub send : M (Unit {0})
  send w = (sending (e.fault w.sent), record w { sent = suc w.sent })

  -- `time.Now()`, and `NOW()` where a statement is its own transaction
  abbrev pub now : M ℕ
  now w = (ok (e.clock w.sent), w)

  -- `ToSql()`, whose failure is `ErrBuildQuery`
  unfoldable pub to_sql : M (Unit {0})
  to_sql = on_error (wrap build_query) send

  -- `pool.Query` with its loop over the rows, or `tx.QueryRow(...).Scan` of a value that is there
  unfoldable pub query : {A : Type 0} → (Db → A) → M A
  query f = send >> λ w. (ok (f w.db), w)

  -- `QueryRow(...).Scan`, which reports `pgx.ErrNoRows`
  unfoldable pub query_row : {A : Type 0} → (Db → Option A) → M A
  query_row f = send >> λ w. (option_result (f w.db), w)

  -- `Exec`, or a batch sent at once
  unfoldable pub exec : (Db → Outcome) → M (Unit {0})
  exec f = send >> λ w. write (f w.db) w
