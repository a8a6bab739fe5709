-- ===== src/Config/Laws.antt =====
-- The defaults of internal/config/config.go, and configurations that are complete.
use pr_reviewer_service.Prelude.{
  String, ◌≡◌, refl, true, false, Option, some, arith, ◌==◌, ℤ, is_positive, Bool-cases,
  Option-cases, inl, inr,
}
use pr_reviewer_service.Config.{
  Config, FileRead, contents, not_exist, unreadable, loaded, normalize, read_yaml, load,
  service_config, seconds, text_or, duration_or, zero_config,
}

-- Every setting that has a default is set: texts are not empty, durations are positive.
pub record IsComplete (c : Config) : Type 0 where
  pub port : (c.http.port == "") ≡ false
  pub read_timeout : is_positive c.http.read_timeout ≡ true
  pub write_timeout : is_positive c.http.write_timeout ≡ true
  pub idle_timeout : is_positive c.http.idle_timeout ≡ true
  pub migrations_path : (c.database.migrations_path == "") ≡ false
  pub operation : is_positive c.timeouts.operation ≡ true
  pub long_operation : is_positive c.timeouts.long_operation ≡ true
  pub shutdown : is_positive c.timeouts.shutdown ≡ true
  pub level : (c.logging.level == "") ≡ false
  pub output : (c.logging.output == "") ≡ false
  pub spec_path : (c.swagger.spec_path == "") ≡ false

text_or-set : (d s : String) → (d == "") ≡ false → (text_or d s == "") ≡ false
text_or-set d s h = elim (Bool-cases (s == "")) [ inl e ↦ rw e h | inr e ↦ rw e e ]

duration_or-set : (d t : ℤ) → is_positive d ≡ true → is_positive (duration_or d t) ≡ true
duration_or-set d t h = elim (Bool-cases (is_positive t)) [ inl e ↦ rw e e | inr e ↦ rw e h ]

pub normalize-IsComplete : (c : Config) → IsComplete (normalize c)
unfolding normalize
normalize-IsComplete c = record {
  port = text_or-set "8080" c.http.port refl;
  read_timeout = duration_or-set (seconds 5) c.http.read_timeout refl;
  write_timeout = duration_or-set (seconds 5) c.http.write_timeout refl;
  idle_timeout = duration_or-set (seconds 300) c.http.idle_timeout refl;
  migrations_path = text_or-set "migrations" c.database.migrations_path refl;
  operation = duration_or-set (seconds 30) c.timeouts.operation refl;
  long_operation = duration_or-set (seconds 60) c.timeouts.long_operation refl;
  shutdown = duration_or-set (seconds 10) c.timeouts.shutdown refl;
  level = text_or-set "info" c.logging.level refl;
  output = text_or-set "stdout" c.logging.output refl;
  spec_path = text_or-set "openapi.yml" c.swagger.spec_path refl;
}

-- A complete configuration is left as it is, by `normalize` and by `service.New`.
IsComplete-normalize : (c : Config) → IsComplete c → normalize c ≡ c
unfolding normalize
IsComplete-normalize c h =
    rw
      (
        h.port, h.read_timeout, h.write_timeout, h.idle_timeout, h.migrations_path, h.operation,
        h.long_operation, h.shutdown, h.level, h.output, h.spec_path,
      )
      refl

IsComplete-service_config : (c : Config) → IsComplete c → service_config c ≡ c
unfolding service_config
IsComplete-service_config c h = rw (h.operation, h.long_operation) refl

-- What `normalize` leaves alone: what is set, and what has no default.
pub record Respects (c n : Config) : Type 0 where
  pub port : (c.http.port == "") ≡ false → n.http.port ≡ c.http.port
  pub read_timeout :
      is_positive c.http.read_timeout ≡ true → n.http.read_timeout ≡ c.http.read_timeout
  pub write_timeout :
      is_positive c.http.write_timeout ≡ true → n.http.write_timeout ≡ c.http.write_timeout
  pub idle_timeout :
      is_positive c.http.idle_timeout ≡ true → n.http.idle_timeout ≡ c.http.idle_timeout
  pub url : n.database.url ≡ c.database.url
  pub max_connections : n.database.max_connections ≡ c.database.max_connections
  pub min_connections : n.database.min_connections ≡ c.database.min_connections
  pub max_conn_idle_time : n.database.max_conn_idle_time ≡ c.database.max_conn_idle_time
  pub max_conn_lifetime : n.database.max_conn_lifetime ≡ c.database.max_conn_lifetime
  pub migrations_path :
      (c.database.migrations_path == "") ≡ false
      → n.database.migrations_path ≡ c.database.migrations_path
  pub operation :
      is_positive c.timeouts.operation ≡ true → n.timeouts.operation ≡ c.timeouts.operation
  pub long_operation :
      is_positive c.timeouts.long_operation ≡ true
      → n.timeouts.long_operation ≡ c.timeouts.long_operation
  pub shutdown : is_positive c.timeouts.shutdown ≡ true → n.timeouts.shutdown ≡ c.timeouts.shutdown
  pub level : (c.logging.level == "") ≡ false → n.logging.level ≡ c.logging.level
  pub output : (c.logging.output == "") ≡ false → n.logging.output ≡ c.logging.output
  pub spec_path : (c.swagger.spec_path == "") ≡ false → n.swagger.spec_path ≡ c.swagger.spec_path
  pub load_tests : n.load_tests ≡ c.load_tests

text_or-kept : (d s : String) → (s == "") ≡ false → text_or d s ≡ s
text_or-kept d s h = rw h refl

duration_or-kept : (d t : ℤ) → is_positive t ≡ true → duration_or d t ≡ t
duration_or-kept d t h = rw h refl

normalize-Respects : (c : Config) → Respects c (normalize c)
unfolding normalize
normalize-Respects c = record {
  port = text_or-kept "8080" c.http.port;
  read_timeout = duration_or-kept (seconds 5) c.http.read_timeout;
  write_timeout = duration_or-kept (seconds 5) c.http.write_timeout;
  idle_timeout = duration_or-kept (seconds 300) c.http.idle_timeout;
  url = refl;
  max_connections = refl;
  min_connections = refl;
  max_conn_idle_time = refl;
  max_conn_lifetime = refl;
  migrations_path = text_or-kept "migrations" c.database.migrations_path;
  operation = duration_or-kept (seconds 30) c.timeouts.operation;
  long_operation = duration_or-kept (seconds 60) c.timeouts.long_operation;
  shutdown = duration_or-kept (seconds 10) c.timeouts.shutdown;
  level = text_or-kept "info" c.logging.level;
  output = text_or-kept "stdout" c.logging.output;
  spec_path = text_or-kept "openapi.yml" c.swagger.spec_path;
  load_tests = refl;
}

-- A configuration that `load` gives, from what the file and the environment say: `read` is the
-- configuration before the defaults.
pub record LoadedFrom (file : FileRead) (unmarshal : String → Config → Option Config)
    (parse_env : Config → Option Config) (c : Config) : Type 0 where
  pub text : String
  pub from_file : Config
  pub read : Config
  pub file_read : file ≡ contents text
  pub file_decoded : unmarshal text zero_config ≡ some from_file
  pub env_parsed : parse_env from_file ≡ some read
  pub complete : IsComplete c
  pub respects : Respects read c
  pub settled : normalize c ≡ c
  pub accepted : service_config c ≡ c

module _ (config_path : String) (read_file : String → FileRead)
    (unmarshal : String → Config → Option Config) (parse_env : Config → Option Config) where
  finished :
      (text : String) (c₁ c₂ c : Config)
      → read_file (text_or "config/config.yaml" config_path) ≡ contents text
      → unmarshal text zero_config ≡ some c₁
      → parse_env c₁ ≡ some c₂
      → normalize c₂ ≡ c
      → LoadedFrom (read_file (text_or "config/config.yaml" config_path)) unmarshal parse_env c
  finished text c₁ c₂ c h1 h2 h3 same = record {
    text = text;
    from_file = c₁;
    read = c₂;
    file_read = h1;
    file_decoded = h2;
    env_parsed = h3;
    complete = rw same at (normalize-IsComplete c₂);
    respects = rw same at (normalize-Respects c₂);
    settled = IsComplete-normalize c (rw same at (normalize-IsComplete c₂));
    accepted = IsComplete-service_config c (rw same at (normalize-IsComplete c₂));
  }

  -- The end of `load`, by what the file, the decoder and the environment gave.
  load_lem :
      (c : Config) (f : FileRead)
      → read_file (text_or "config/config.yaml" config_path) ≡ f
      → load config_path read_file unmarshal parse_env ≡ loaded c
      → LoadedFrom (read_file (text_or "config/config.yaml" config_path)) unmarshal parse_env c
  unfolding load read_yaml
  load_lem c (contents text) read h = elim (Option-cases (unmarshal text zero_config)) [
    | inl bad ↦ absurd (ground arith)
    | inr (c₁, from_file) ↦ elim (Option-cases (parse_env c₁)) [
      | inl bad ↦ absurd (ground arith)
      | inr (c₂, from_env) ↦ finished text c₁ c₂ c read from_file from_env (ground arith)
    ]
  ]
  load_lem c not_exist read h = absurd (ground arith)
  load_lem c unreadable read h = absurd (ground arith)

  -- A configuration that `Load` returns was read, decoded and overlaid by the environment; every
  -- setting that has a default is set in it, and what the file and the environment have set, or what
  -- has no default, is as they say; filling in the defaults once more changes nothing, and the
  -- service takes its timeouts as they are.
  pub load-LoadedFrom :
      (c : Config)
      → load config_path read_file unmarshal parse_env ≡ loaded c
      → LoadedFrom (read_file (text_or "config/config.yaml" config_path)) unmarshal parse_env c
  load-LoadedFrom c h = load_lem c (read_file (text_or "config/config.yaml" config_path)) refl h
