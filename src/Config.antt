-- ===== src/Config.antt =====
-- internal/config/config.go, and the defaults of `service.New`. A `time.Duration` is its number of
-- nanoseconds. Reading the file, decoding YAML and parsing the environment are the system's and two
-- third-party packages' and so parameters.
pub mod Laws
use pr_reviewer_service.Prelude.{
  ℕ, ◌*◌, String, Option, none, some, ◌==◌, if◌then◌else◌, ℤ, pos, is_positive,
}

pub record HttpConfig : Type 0 where
  pub port : String
  pub read_timeout : ℤ
  pub write_timeout : ℤ
  pub idle_timeout : ℤ

pub record DatabaseConfig : Type 0 where
  pub url : String
  pub migrations_path : String
  pub max_connections : ℤ
  pub min_connections : ℤ
  pub max_conn_idle_time : ℤ
  pub max_conn_lifetime : ℤ

pub record TimeoutConfig : Type 0 where
  pub operation : ℤ
  pub long_operation : ℤ
  pub shutdown : ℤ

pub record LoggingConfig : Type 0 where
  pub level : String
  pub output : String

pub record SwaggerConfig : Type 0 where
  pub spec_path : String

pub record LoadTestConfig : Type 0 where
  pub targets_path : String

pub record Config : Type 0 where
  pub http : HttpConfig
  pub database : DatabaseConfig
  pub timeouts : TimeoutConfig
  pub logging : LoggingConfig
  pub swagger : SwaggerConfig
  pub load_tests : LoadTestConfig

-- `n * time.Second`
abbrev pub seconds : ℕ → ℤ
seconds n = pos (n * 1000000000)

-- `if s == "" { s = d }`
abbrev pub text_or : String → String → String
text_or d s = if s == "" then d else s

-- `if t <= 0 { t = d }`
abbrev pub duration_or : ℤ → ℤ → ℤ
duration_or d t = if is_positive t then t else d

unfoldable pub normalize : Config → Config
normalize c = record c {
  http = record {
    port = text_or "8080" c.http.port;
    read_timeout = duration_or (seconds 5) c.http.read_timeout;
    write_timeout = duration_or (seconds 5) c.http.write_timeout;
    idle_timeout = duration_or (seconds 300) c.http.idle_timeout;
  };
  database = record c.database {
    migrations_path = text_or "migrations" c.database.migrations_path;
  };
  timeouts = record {
    operation = duration_or (seconds 30) c.timeouts.operation;
    long_operation = duration_or (seconds 60) c.timeouts.long_operation;
    shutdown = duration_or (seconds 10) c.timeouts.shutdown;
  };
  logging = record {
    level = text_or "info" c.logging.level;
    output = text_or "stdout" c.logging.output;
  };
  swagger = record { spec_path = text_or "openapi.yml" c.swagger.spec_path };
}

-- `Config{}`
abbrev pub zero_config : Config
zero_config = record {
  http = record { port = ""; read_timeout = pos 0; write_timeout = pos 0; idle_timeout = pos 0 };
  database = record {
    url = "";
    migrations_path = "";
    max_connections = pos 0;
    min_connections = pos 0;
    max_conn_idle_time = pos 0;
    max_conn_lifetime = pos 0;
  };
  timeouts = record { operation = pos 0; long_operation = pos 0; shutdown = pos 0 };
  logging = record { level = ""; output = "" };
  swagger = record { spec_path = "" };
  load_tests = record { targets_path = "" };
}

-- `os.ReadFile`
pub data FileRead : Type 0 where
  contents : String → FileRead
  not_exist : FileRead
  unreadable : FileRead

-- The errors of `Load`.
pub data ConfigError : Type 0 where
  config_not_found : String → ConfigError
  read_failed decode_failed env_failed : ConfigError

pub data Loaded (A : Type 0) : Type 0 where
  loaded : A → Loaded A
  failed : ConfigError → Loaded A

abbrev pub decoded : Option Config → Loaded Config
decoded none = failed decode_failed
decoded (some c) = loaded c

abbrev pub parsed : Option Config → Loaded Config
parsed none = failed env_failed
parsed (some c) = loaded c

abbrev pub and_load : Loaded Config → (Config → Loaded Config) → Loaded Config
and_load (failed x) f = failed x
and_load (loaded c) f = f c

-- `config_path` is the environment's CONFIG_PATH, empty where it is not set; `unmarshal` writes what
-- the file says over a configuration, and `parse_env` what the environment says.
module _ (config_path : String) (read_file : String → FileRead)
    (unmarshal : String → Config → Option Config) (parse_env : Config → Option Config) where
  abbrev pub path : String
  path = text_or "config/config.yaml" config_path

  unfoldable pub read_yaml : Config → Loaded Config
  read_yaml c = elim (read_file path) [
    | contents text ↦ decoded (unmarshal text c)
    | not_exist ↦ failed (config_not_found path)
    | unreadable ↦ failed read_failed
  ]

  unfoldable pub load : Loaded Config
  unfolding normalize
  load =
      and_load (read_yaml zero_config)
        λ c. and_load (parsed (parse_env c)) λ c'. loaded (normalize c')

  -- `none` is a panic.
  unfoldable pub must_load : Option Config
  must_load = elim load [ loaded c ↦ some c | failed x ↦ none ]

-- The timeouts as `service.New` keeps them.
unfoldable pub service_config : Config → Config
service_config c = record c {
  timeouts = record c.timeouts {
    operation = duration_or (seconds 30) c.timeouts.operation;
    long_operation = duration_or (seconds 60) c.timeouts.long_operation;
  };
}
