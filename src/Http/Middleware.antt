-- ===== src/Http/Middleware.antt =====
-- internal/http/middleware/{logging,metrics,panic}.go and internal/metrics/technical.go: the chain
-- around the routes, with the Prometheus samples and the lines of the log that it writes. A counter
-- is the list of its label values, once for each `Inc`, and a histogram the list of its
-- observations, the latest first; a duration is kept as it is before it is turned into milliseconds or seconds.
pub mod Laws
pub mod Lines
use Prim.Native.String.{◌++◌}
use pr_reviewer_service.Prelude.{
  ℕ, suc, ◌-◌, String, Bool, true, false, Option, none, some, List, [], ◌∷◌, ◌==◌, if◌then◌else◌, ℤ,
  is_positive,
}
use pr_reviewer_service.Logging.{
  Context, background, Attribute, text, handle_record, with_log_request_id, with_log_request_path,
  with_log_request_method, with_log_request_status, with_log_request_duration,
}
use pr_reviewer_service.Repository.Monad.{Result, ok, err, panic, World, Env, M}
use pr_reviewer_service.Service.Deactivation.{MassDeactivateResult}
use pr_reviewer_service.App.Logger.{Level, level_debug, level_info, level_warn, level_error}
use pr_reviewer_service.Http.Response.{Response, recover_result}
use pr_reviewer_service.Http.Router.{
  Request, get_health, get_stats_assignments, post_team_add, get_team_get, post_team_deactivate,
  post_users_set_is_active, get_users_get_review, post_pull_request_create, post_pull_request_merge,
  post_pull_request_reassign, handle,
}

-- `RestRequestsTotal`, `RestResponseDuration`, `RestEndpointsResponsesTotal`, `httpRequestsTotal`,
-- `httpRequestDuration` and `httpRequestSize`; the level of the log, which `setupLogger` has set; and
-- those lines of the log that the chain has written. The lines of the handlers, of the service and of
-- the repository stand among them in the log, and are left out.
pub record Telemetry : Type 0 where
  pub hits : List String
  pub time_hits : List (String × String × ℕ)
  pub hits_statuses : List (String × String)
  pub http_requests_total : List (String × String × ℕ)
  pub http_request_duration : List (String × String × ℕ × ℕ)
  pub http_request_size : List (String × String × ℤ)
  pub level : Level
  pub own_lines : List (String × List (String × Attribute))

-- What a handler works on: `route` is the pattern that chi has matched for this request so far, and
-- `ids` counts the calls of `uuid.New`.
pub record State : Type 0 where
  pub world : World
  pub telemetry : Telemetry
  pub route : String
  pub ids : ℕ

-- `*http.Request`
pub record Incoming : Type 0 where
  pub ctx : Context
  pub request : Request
  pub content_length : ℤ

-- `http.Handler`
abbrev pub Handler : Type 0
Handler = Incoming → State → Result Response × State

-- The method and the path of each route, as `Router` and the `Register` functions give them.
abbrev pub method_of : Request → String
method_of get_health = "GET"
method_of get_stats_assignments = "GET"
method_of (post_team_add body) = "POST"
method_of (get_team_get name) = "GET"
method_of (post_team_deactivate body) = "POST"
method_of (post_users_set_is_active body) = "POST"
method_of (get_users_get_review user_id) = "GET"
method_of (post_pull_request_create body) = "POST"
method_of (post_pull_request_merge body) = "POST"
method_of (post_pull_request_reassign body) = "POST"

abbrev pub path_of : Request → String
path_of get_health = "/health"
path_of get_stats_assignments = "/stats/assignments"
path_of (post_team_add body) = "/team/add"
path_of (get_team_get name) = "/team/get"
path_of (post_team_deactivate body) = "/team/deactivate"
path_of (post_users_set_is_active body) = "/users/setIsActive"
path_of (get_users_get_review user_id) = "/users/getReview"
path_of (post_pull_request_create body) = "/pullRequest/create"
path_of (post_pull_request_merge body) = "/pullRequest/merge"
path_of (post_pull_request_reassign body) = "/pullRequest/reassign"

-- `responseWriter`
pub record ResponseWriter : Type 0 where
  pub status_code : ℕ

abbrev pub new_writer : ResponseWriter
new_writer = record { status_code = 200 }

unfoldable pub write_header : ResponseWriter → ℕ → ResponseWriter
write_header rw code = record { status_code = code }

-- `IncRestRequestsTotal`, `IncRestResponsesDuration` and `IncRestResponsesStatusesTotal`, the last
-- given `http.StatusText`
unfoldable pub inc_rest_requests_total : String → Telemetry → Telemetry
inc_rest_requests_total path t = record t { hits = path ∷ t.hits }

unfoldable pub inc_rest_responses_duration : String → String → ℕ → Telemetry → Telemetry
inc_rest_responses_duration path method d t = record t {
  time_hits = (path, method, d) ∷ t.time_hits;
}

unfoldable pub inc_rest_responses_statuses_total : (ℕ → String) → String → ℕ → Telemetry → Telemetry
inc_rest_responses_statuses_total status_text path status t = record t {
  hits_statuses = (path, status_text status) ∷ t.hits_statuses;
}

-- Whether the handler takes a line of level `Info`.
abbrev pub takes_info : Level → Bool
takes_info level_debug = true
takes_info level_info = true
takes_info level_warn = false
takes_info level_error = false

-- `slog.InfoContext`, with the place of the call; the attributes are those that `Handle` adds.
unfoldable pub info_context : Context → String → String → Telemetry → Telemetry
unfolding handle_record
info_context ctx place message t = record t {
  own_lines =
      if takes_info t.level
      then (message, handle_record ctx (some place) []) ∷ t.own_lines
      else t.own_lines;
}

-- `if pattern != "" { ... }`, else the path of the request
unfoldable pub path_template : String → String → String
path_template pattern path = if pattern == "" then path else pattern

-- `getEndpoint`, where the request is there and where it is `nil`
unfoldable pub get_endpoint : Option (String × String) → String
get_endpoint none = "/"
get_endpoint (some (pattern, path)) =
    if pattern == "" then (if path == "" then "/" else path) else pattern

-- The rest of a middleware: what it does with a response, a panic passing through it.
abbrev pub after : (Response → State → State) → Result Response × State → Result Response × State
after f (ok r, s) = (ok r, f r s)
after f (err x, s) = (err x, s)
after f (panic, s) = (panic, s)

-- The context that `LoggerMiddleware` hands on.
unfoldable pub request_context : String → Incoming → Context
unfolding with_log_request_id with_log_request_path with_log_request_method
request_context id i =
    with_log_request_method
      (with_log_request_path (with_log_request_id i.ctx id) (path_of i.request))
      (method_of i.request)

module _ (e : Env) where
  -- `MetricsMiddleware` once the handler is done.
  unfoldable pub observe_request : Incoming → ℕ → Response → State → State
  unfolding get_endpoint
  observe_request i begun r s =
      let t = s.telemetry in
      let duration = e.clock s.world.sent - begun in
      let endpoint = get_endpoint (some (s.route, path_of i.request)) in
      let sizes = t.http_request_size in
      record s {
        telemetry = record t {
          http_requests_total = (method_of i.request, endpoint, r.status) ∷ t.http_requests_total;
          http_request_duration =
              (method_of i.request, endpoint, r.status, duration) ∷ t.http_request_duration;
          http_request_size =
              if is_positive i.content_length
              then (method_of i.request, endpoint, i.content_length) ∷ sizes
              else sizes;
        };
      }

  unfoldable pub metrics_middleware : Handler → Handler
  metrics_middleware next i s = after (observe_request i (e.clock s.world.sent)) (next i s)

  module _ (new_id : ℕ → String) (status_text duration_text : ℕ → String) where
    -- `LoggerMiddleware` before the handler,
    unfoldable pub start_request : String → String → Incoming → State → State
    unfolding inc_rest_requests_total info_context
    start_request template id i s =
        let t = inc_rest_requests_total template s.telemetry in
        record s {
          telemetry =
              info_context i.ctx "logging.go:37" ("Start [" ++ id ++ "] request processing") t;
          ids = suc s.ids;
        }

    -- and once it is done.
    unfoldable pub end_request : String → String → Incoming → ℕ → Response → State → State
    unfolding info_context inc_rest_responses_duration inc_rest_responses_statuses_total
        request_context write_header with_log_request_status with_log_request_duration
    end_request template id i begun r s =
        let time_serve = e.clock s.world.sent - begun in
        let rw = write_header new_writer r.status in
        let ctx =
          with_log_request_duration (with_log_request_status (request_context id i) rw.status_code)
            (duration_text time_serve) in
        let t =
          info_context ctx "logging.go:55" ("Ended [" ++ id ++ "] request processing")
            s.telemetry in
        let t' = inc_rest_responses_duration template (method_of i.request) time_serve t in
        record s {
          telemetry = inc_rest_responses_statuses_total status_text template rw.status_code t';
        }

    unfoldable pub logger_middleware : Handler → Handler
    unfolding path_template
    logger_middleware next i s =
        let template = path_template s.route (path_of i.request) in
        let id = new_id s.ids in
        after (end_request template id i (e.clock s.world.sent))
          (next (record i { ctx = request_context id i }) (start_request template id i s))

  -- `PanicMiddleware`, with its line in the log, which stands in no request's context
  -- and which every level lets through. The time, the
  -- panic's value and the stack that the line also holds are left out.
  unfoldable pub panic_line : Incoming → Telemetry → Telemetry
  unfolding handle_record
  panic_line i t = record t {
    own_lines =
        (
          "Перехвачена паника",
          handle_record background (some "panic.go:19")
              (("method", text (method_of i.request)) ∷ ("url", text (path_of i.request)) ∷ []),
        )
        ∷ t.own_lines;
  }

  abbrev pub report_panic : Incoming → Result Response × State → Result Response × State
  report_panic i (panic, s) =
      (recover_result panic, record s { telemetry = panic_line i s.telemetry })
  report_panic i (ok r, s) = (ok r, s)
  report_panic i (err x, s) = (err x, s)

  unfoldable pub recover_middleware : Handler → Handler
  recover_middleware next i s = report_panic i (next i s)

  -- The chain of `r.Use`, the outermost first.
  unfoldable pub middlewares : (ℕ → String) → (ℕ → String) → (ℕ → String) → Handler → Handler
  unfolding recover_middleware logger_middleware metrics_middleware
  middlewares new_id status_text duration_text next =
      recover_middleware
        (logger_middleware new_id status_text duration_text (metrics_middleware next))

  module _ (do_tx : M MassDeactivateResult → M MassDeactivateResult) where
    -- chi's routing: it notes the pattern, and calls the handler of the route.
    unfoldable pub routes : Handler
    routes i s =
        let (r, w) = handle e do_tx i.request s.world in
        (r, record s { world = w; route = path_of i.request })

    module _ (new_id : ℕ → String) (status_text duration_text : ℕ → String) where
      -- A request goes through the chain with nothing matched yet.
      unfoldable pub serve_http : Handler
      unfolding middlewares routes
      serve_http i s =
          middlewares new_id status_text duration_text routes i (record s { route = "" })

      -- The state after a list of requests.
      unfoldable pub serve_each : List Incoming → State → State
      unfolding serve_http
      serve_each [] s = s
      serve_each (i ∷ is) s = serve_each is (serve_http i s).1
