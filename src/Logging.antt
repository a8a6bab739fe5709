-- ===== src/Logging.antt =====
-- internal/logging: the values that a request leaves in its context for the log, and the errors that
-- carry them.
pub mod Laws
use pr_reviewer_service.Prelude.{
  ℕ, String, Option, none, some, List, [], ◌∷◌, ◌++◌, ◌==◌, leb, if◌then◌else◌,
}

-- `logCtx`
pub record LogCtx : Type 0 where
  pub request_id : String
  pub status : ℕ
  pub request_start : String
  pub request_duration : String
  pub method : String
  pub path : String
  pub team_name : String
  pub team_members_count : ℕ
  pub user_id : String
  pub author_id : String
  pub pull_request_id : String

-- `logCtx{}`
abbrev pub empty_ctx : LogCtx
empty_ctx = record {
  request_id = "";
  status = 0;
  request_start = "";
  request_duration = "";
  method = "";
  path = "";
  team_name = "";
  team_members_count = 0;
  user_id = "";
  author_id = "";
  pull_request_id = "";
}

-- `context.Context` as a chain of `context.WithValue`: under the key of this package, or another.
pub data Context : Type 0 where
  background : Context
  with_log : LogCtx → Context → Context
  with_other : String → Context → Context

-- `ctx.Value(key).(logCtx)`
unfoldable pub value : Context → Option LogCtx
value background = none
value (with_log c ctx) = some c
value (with_other k ctx) = value ctx

abbrev pub ctx_or : Option LogCtx → LogCtx
ctx_or none = empty_ctx
ctx_or (some c) = c

-- The shape of the ten `WithLog` functions.
unfoldable pub with_field : (LogCtx → LogCtx) → Context → Context
unfolding value
with_field f ctx = with_log (f (ctx_or (value ctx))) ctx

unfoldable pub with_log_request_id : Context → String → Context
unfolding with_field
with_log_request_id ctx x = with_field (λ c. record c { request_id = x }) ctx

unfoldable pub with_log_request_path : Context → String → Context
unfolding with_field
with_log_request_path ctx x = with_field (λ c. record c { path = x }) ctx

unfoldable pub with_log_request_method : Context → String → Context
unfolding with_field
with_log_request_method ctx x = with_field (λ c. record c { method = x }) ctx

unfoldable pub with_log_request_status : Context → ℕ → Context
unfolding with_field
with_log_request_status ctx x = with_field (λ c. record c { status = x }) ctx

unfoldable pub with_log_request_duration : Context → String → Context
unfolding with_field
with_log_request_duration ctx x = with_field (λ c. record c { request_duration = x }) ctx

unfoldable pub with_log_team_name : Context → String → Context
unfolding with_field
with_log_team_name ctx x = with_field (λ c. record c { team_name = x }) ctx

unfoldable pub with_log_team_members_count : Context → ℕ → Context
unfolding with_field
with_log_team_members_count ctx x = with_field (λ c. record c { team_members_count = x }) ctx

unfoldable pub with_log_user_id : Context → String → Context
unfolding with_field
with_log_user_id ctx x = with_field (λ c. record c { user_id = x }) ctx

unfoldable pub with_log_author_id : Context → String → Context
unfolding with_field
with_log_author_id ctx x = with_field (λ c. record c { author_id = x }) ctx

unfoldable pub with_log_pull_request_id : Context → String → Context
unfolding with_field
with_log_pull_request_id ctx x = with_field (λ c. record c { pull_request_id = x }) ctx

-- An error: a plain one, one that `fmt.Errorf` wraps behind a text, or an `*errorWithLogCtx`.
pub data LogError : Type 0 where
  plain : String → LogError
  behind : String → LogError → LogError
  error_with_log_ctx : LogError → LogCtx → LogError

-- `Error()`, given how texts are joined
unfoldable pub error : (String → String → String) → LogError → String
error join (plain s) = s
error join (behind s e) = join s (error join e)
error join (error_with_log_ctx e c) = error join e

-- `Unwrap()`
abbrev pub unwrap : LogError → Option LogError
unwrap (plain s) = none
unwrap (behind s e) = some e
unwrap (error_with_log_ctx e c) = some e

unfoldable pub wrap_error : Context → LogError → LogError
unfolding value
wrap_error ctx e = error_with_log_ctx e (ctx_or (value ctx))

-- `errors.As(err, &e)` for an `*errorWithLogCtx`: the first along the chain of `Unwrap`.
unfoldable pub as_log_error : LogError → Option LogCtx
as_log_error (plain s) = none
as_log_error (behind s e) = as_log_error e
as_log_error (error_with_log_ctx e c) = some c

abbrev pub restored : Context → Option LogCtx → Context
restored ctx none = ctx
restored ctx (some c) = with_log c ctx

unfoldable pub error_ctx : Context → LogError → Context
unfolding as_log_error
error_ctx ctx e = restored ctx (as_log_error e)

-- What an attribute of a log record holds.
pub data Attribute : Type 0 where
  text : String → Attribute
  number : ℕ → Attribute

abbrev pub add_text : String → String → List (String × Attribute) → List (String × Attribute)
add_text name x rest = if x == "" then rest else (name, text x) ∷ rest

abbrev pub add_number : String → ℕ → List (String × Attribute) → List (String × Attribute)
add_number name x rest = if leb x 0 then rest else (name, number x) ∷ rest

-- The loop of `Handle` over the fields, by their names in small letters; a zero value is left out.
unfoldable pub attributes : LogCtx → List (String × Attribute)
attributes c = add_text "requestid" c.request_id (
    add_number "status" c.status (
      add_text "requeststart" c.request_start (
        add_text "requestduration" c.request_duration (
          add_text "method" c.method (
            add_text "path" c.path (
              add_text "teamname" c.team_name (
                add_number "teammemberscount" c.team_members_count (
                  add_text "userid" c.user_id (
                    add_text "authorid" c.author_id
                      (add_text "pullrequestid" c.pull_request_id []))))))))))

abbrev pub attributes_of : Option LogCtx → List (String × Attribute)
attributes_of none = []
attributes_of (some c) = attributes c

-- The attributes that `Handle` adds, `source` being the place of the call where it is known.
unfoldable pub added_attributes : Context → Option String → List (String × Attribute)
unfolding value attributes
added_attributes ctx none = attributes_of (value ctx)
added_attributes ctx (some place) = attributes_of (value ctx) ++ ("source", text place) ∷ []

-- The attributes of the record that `Handle` passes on, `rec` being those that it had before.
unfoldable pub handle_record :
    Context → Option String → List (String × Attribute) → List (String × Attribute)
unfolding added_attributes
handle_record ctx source rec = rec ++ added_attributes ctx source
