-- ===== src/Http/Router.antt =====
-- internal/http/router/handlers.go: the routes of the service under the panic middleware. The module
-- Middleware puts the rest of the chain around them. The pages for Swagger and Prometheus are left out.
use pr_reviewer_service.Prelude.{String, Option, List, [], ◌∷◌}
use pr_reviewer_service.Repository.Monad.{Result, ok, err, panic, World, Env, M}
use pr_reviewer_service.Service.Basic.{health_check}
use pr_reviewer_service.Service.Deactivation.{MassDeactivateInput, MassDeactivateResult}
use pr_reviewer_service.Http.Response.{
  ApiTeam, Response, health_ok, health_degraded, with_error_handling, panic_middleware,
}
use pr_reviewer_service.Http.Handlers.{
  CreateRequest, ReassignRequest, ActivityRequest, add_team, get_team, set_is_active, get_review,
  create, merge, reassign, assignments, deactivate,
}

-- One constructor for each route.
pub data Request : Type 0 where
  get_health get_stats_assignments : Request
  post_team_add : Option ApiTeam → Request
  get_team_get : String → Request
  post_team_deactivate : Option MassDeactivateInput → Request
  post_users_set_is_active : Option ActivityRequest → Request
  get_users_get_review : String → Request
  post_pull_request_create : Option CreateRequest → Request
  post_pull_request_merge : Option String → Request
  post_pull_request_reassign : Option ReassignRequest → Request

abbrev pub health_result : Result (Unit {0}) → Result Response
health_result (ok done) = ok (record { status = 200; payload = health_ok })
health_result (err x) = ok (record { status = 503; payload = health_degraded x })
health_result panic = panic

unfoldable pub health : Env → M Response
health e w = let (r, w') = health_check e w in (health_result r, w')

module _ (e : Env) (do_tx : M MassDeactivateResult → M MassDeactivateResult) where
  unfoldable pub handle : Request → M Response
  handle get_health = health e
  handle get_stats_assignments = with_error_handling (assignments e)
  handle (post_team_add body) = with_error_handling (add_team e body)
  handle (get_team_get name) = with_error_handling (get_team e name)
  handle (post_team_deactivate body) = with_error_handling (deactivate e do_tx body)
  handle (post_users_set_is_active body) = with_error_handling (set_is_active e body)
  handle (get_users_get_review user_id) = with_error_handling (get_review e user_id)
  handle (post_pull_request_create body) = with_error_handling (create e body)
  handle (post_pull_request_merge body) = with_error_handling (merge e body)
  handle (post_pull_request_reassign body) = with_error_handling (reassign e body)

  -- A request as the server answers it.
  unfoldable pub serve : Request → M Response
  serve req = panic_middleware (handle req)

  -- The state after a list of requests.
  unfoldable pub serve_all : List Request → World → World
  serve_all [] w = w
  serve_all (req ∷ reqs) w = serve_all reqs (serve req w).1
