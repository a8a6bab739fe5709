-- ===== src/Http/Middleware/Lines.antt =====
-- The lines that the logging middleware writes for a request, read back from the log.
use Prim.Native.String
use pr_reviewer_service.Prelude.{ℕ, ◌-◌, ◌≡◌, refl, true, String, some, List, ◌∷◌}
use pr_reviewer_service.Logging.{
  LogCtx, Context, Attribute, handle_record, added_attributes, value, ctx_or, with_field,
  with_log_request_id, with_log_request_path, with_log_request_method, with_log_request_status,
  with_log_request_duration,
}
use pr_reviewer_service.Logging.Laws.{told, told-added_attributes}
use pr_reviewer_service.Repository.Monad.{ok, World, Env, M}
use pr_reviewer_service.Service.Deactivation.{MassDeactivateResult}
use pr_reviewer_service.Http.Response.{Response}
use pr_reviewer_service.Http.Router.{handle}
use pr_reviewer_service.Http.Middleware.{
  State, Incoming, method_of, path_of, start_request, end_request, observe_request, middlewares,
  takes_info, request_context, info_context, inc_rest_requests_total, inc_rest_responses_duration,
  inc_rest_responses_statuses_total, write_header, serve_http,
}
use pr_reviewer_service.Http.Middleware.Laws.{returning}

module _ (e : Env) (new_id : ℕ → String) (status_text duration_text : ℕ → String) where
  -- The values that the context of the request tells once it is answered.
  abbrev pub final_values : Incoming → State → Response → World → LogCtx
  final_values i s r w = record (ctx_or (value i.ctx)) {
    request_id = new_id s.ids;
    status = r.status;
    request_duration = duration_text (e.clock w.sent - e.clock s.world.sent);
    method = method_of i.request;
    path = path_of i.request;
  }

  abbrev final_context : Incoming → State → Response → World → Context
  final_context i s r w =
      with_log_request_duration
        (with_log_request_status (request_context (new_id s.ids) i) r.status)
        (duration_text (e.clock w.sent - e.clock s.world.sent))

  -- The lines of the chain end with two new ones: a first one that names the request and tells what its context
  -- held, and a last one that names it again and tells the final values.
  abbrev pub IsLogged :
      Incoming → State → Response → World → List (String × List (String × Attribute)) → Type 0
  IsLogged i s r w lines =
      (before : List (String × Attribute)) × (later : List (String × Attribute)) × (lines
        ≡ (String.◌++◌ "Ended [" (String.◌++◌ (new_id s.ids) "] request processing"), later)
          ∷ (String.◌++◌ "Start [" (String.◌++◌ (new_id s.ids) "] request processing"), before)
          ∷ s.telemetry.own_lines)
      × (told before ≡ ctx_or (value i.ctx))
      × (told later ≡ final_values i s r w)

  through-IsLogged :
      (r : Response) (w : World) (i : Incoming) (s : State)
      → takes_info s.telemetry.level ≡ true
      → IsLogged i s r w
          (middlewares e new_id status_text duration_text
            (returning (ok r) w)
            i
            (record s { route = "" })).1.telemetry.own_lines
  unfolding handle_record middlewares start_request end_request observe_request info_context
      inc_rest_requests_total inc_rest_responses_duration inc_rest_responses_statuses_total
      request_context write_header value with_field with_log_request_id with_log_request_path
      with_log_request_method with_log_request_status with_log_request_duration
  through-IsLogged r w i s on = (
    added_attributes i.ctx (some "logging.go:37"),
    added_attributes (final_context i s r w) (some "logging.go:55"),
    rw on refl,
    told-added_attributes i.ctx (some "logging.go:37"),
    told-added_attributes (final_context i s r w) (some "logging.go:55"),
  )

  -- Where the level of the log takes lines of level info, the chain writes two lines of its own for a
  -- request that is answered. The first tells the values that its context held; the second tells these
  -- with the request's id, method and path, the status of its answer and how long it took.
  pub serve_http-IsLogged :
      (do_tx : M MassDeactivateResult → M MassDeactivateResult) (i : Incoming) (s : State)
      (r : Response) (w : World)
      → takes_info s.telemetry.level ≡ true
      → handle e do_tx i.request s.world ≡ (ok r, w)
      → IsLogged i s r w
          (serve_http e do_tx new_id status_text duration_text i s).1.telemetry.own_lines
  unfolding serve_http start_request
  serve_http-IsLogged do_tx i s r w on h = rw h (through-IsLogged r w i s on)
