-- ===== src/App/Start.antt =====
-- `New`, `Run` and `runMigrations` of internal/app/app.go, and `main` of cmd/run/main.go
pub mod Laws
use Prim.Native.String.{◌++◌}
use pr_reviewer_service.Prelude.{ℕ, String, Bool, true, false, Option, none, some, ◌⊎◌, inl, inr, ℤ}
use pr_reviewer_service.Config.{Config}
use pr_reviewer_service.App.Connect.{
  PoolConfig, Connection, connected, cancelled, not_connected, connect_with_retry,
}
use pr_reviewer_service.App.Logger.{Logger, setup_logger}

-- `migrate.New`, and what `Up` returns: `ErrNoChange` is no failure.
pub data MigrateUp (E : Type 0) : Type 0 where
  migrated no_change : MigrateUp E
  up_failed : E → MigrateUp E

-- The first event that `Run` selects: the context ends, the server stops with an error, or it is
-- closed.
pub data Event (E : Type 0) : Type 0 where
  ctx_done : Event E
  server_failed : E → Event E
  server_closed : Event E

-- What the program calls: `migrate.New` by path and URL, and `Up` after it; what `pgxpool` and the context say
-- at each attempt to connect; `os.ReadFile` of the Swagger file; the event of `Run`, and
-- `Shutdown` with its timeout; lower case, and the file of the log.
pub record Outside (E Pool : Type 0) : Type 0 where
  pub migrate_new : String → String → Option E
  pub up : MigrateUp E
  pub parse_config : ℕ → String → E ⊎ PoolConfig
  pub new_with_config : ℕ → PoolConfig → E ⊎ Pool
  pub done : ℕ → Option E
  pub read_spec : String → Option String
  pub event : Event E
  pub shutdown : ℤ → Option E
  pub to_lower : String → String
  pub mkdir_all : String → Bool
  pub open_file : String → Bool

-- `http.Server`
pub record Server : Type 0 where
  pub addr : String
  pub read_timeout : ℤ
  pub write_timeout : ℤ
  pub idle_timeout : ℤ

-- `App`: the handler of its server is told by the Swagger file that it has, and the transaction manager
-- is left out.
pub record App (Pool : Type 0) : Type 0 where
  pub cfg : Config
  pub server : Server
  pub swagger_spec : String
  pub repo : Pool

-- The error that `New` returns.
pub data NewError (E : Type 0) : Type 0 where
  migrations : E → NewError E
  context : E → NewError E
  connect_db : Option E → NewError E

-- How the process ends: its exit status, and whether the pool and the file of the log are still
-- open where it had opened them.
pub record Exit : Type 0 where
  pub code : ℕ
  pub pool_open : Bool
  pub log_open : Bool

module _ {E Pool : Type 0} (o : Outside E Pool) where
  abbrev pub up_error : MigrateUp E → Option E
  up_error migrated = none
  up_error no_change = none
  up_error (up_failed x) = some x

  unfoldable pub run_migrations : Config → Option E
  run_migrations c = elim (o.migrate_new ("file://" ++ c.database.migrations_path) c.database.url) [
    | some x ↦ some x
    | none ↦ up_error o.up
  ]

  abbrev pub spec_or : Option String → String
  spec_or none = ""
  spec_or (some spec) = spec

  abbrev pub app_of : Config → Pool → App Pool
  app_of c pool = record {
    cfg = c;
    server = record {
      addr = ":" ++ c.http.port;
      read_timeout = c.http.read_timeout;
      write_timeout = c.http.write_timeout;
      idle_timeout = c.http.idle_timeout;
    };
    swagger_spec = spec_or (o.read_spec c.swagger.spec_path);
    repo = pool;
  }

  abbrev pub app_with : Config → Connection E Pool → NewError E ⊎ App Pool
  app_with c (cancelled x) = inl (context x)
  app_with c (not_connected x) = inl (connect_db x)
  app_with c (connected pool) = inr (app_of c pool)

  unfoldable pub new : Config → NewError E ⊎ App Pool
  new c = elim (run_migrations c) [
    | some x ↦ inl (migrations x)
    | none ↦ app_with c (connect_with_retry c o.parse_config o.new_with_config o.done).0
  ]

  -- `Run`: the error that it returns, and whether it leaves the pool open.
  abbrev pub after_shutdown : Option E → Option E × Bool
  after_shutdown (some x) = (some x, true)
  after_shutdown none = (none, false)

  abbrev pub after_event : Config → Event E → Option E × Bool
  after_event c ctx_done = after_shutdown (o.shutdown c.timeouts.shutdown)
  after_event c (server_failed x) = (some x, false)
  after_event c server_closed = (none, false)

  unfoldable pub run : App Pool → Option E × Bool
  run a = after_event a.cfg o.event

  -- The end of `main`: an exit by `os.Exit` skips the deferred cleanup of the log.
  abbrev pub exit_of : Logger → Option E × Bool → Exit
  exit_of l (some x, left) = record { code = 1; pool_open = left; log_open = l.has_closer }
  exit_of l (none, left) = record { code = 0; pool_open = left; log_open = false }

  abbrev pub main_with : Logger → NewError E ⊎ App Pool → Exit
  main_with l (inl x) = record { code = 1; pool_open = false; log_open = l.has_closer }
  main_with l (inr a) = exit_of l (run a)

  abbrev pub main_logged : Config → Option Logger → Exit
  main_logged c none = record { code = 1; pool_open = false; log_open = false }
  main_logged c (some l) = main_with l (new c)

  -- `cfg` is what `MustLoad` gives, `none` where it panics.
  unfoldable pub main : Option Config → Exit
  main none = record { code = 2; pool_open = false; log_open = false }
  main (some c) = main_logged c (setup_logger o.to_lower o.mkdir_all o.open_file c)
