-- ===== src/Http/Middleware/Laws.antt =====
-- The chain of internal/http/middleware against the routes alone, and its counters.
use pr_reviewer_service.Prelude.{ℕ, ◌≡◌, refl, ap, ◌∙◌, String, some, List, [], ◌∷◌}
use pr_reviewer_service.Repository.Monad.{Result, ok, err, panic, World, Env, M}
use pr_reviewer_service.Service.Deactivation.{MassDeactivateResult}
use pr_reviewer_service.Http.Response.{Response, recover_result, panic_middleware}
use pr_reviewer_service.Http.Router.{
  Request, get_health, get_stats_assignments, post_team_add, get_team_get, post_team_deactivate,
  post_users_set_is_active, get_users_get_review, post_pull_request_create, post_pull_request_merge,
  post_pull_request_reassign, handle, serve, serve_all,
}
use pr_reviewer_service.Http.Middleware.{
  Telemetry, State, Incoming, Handler, method_of, path_of, get_endpoint, start_request, end_request,
  observe_request, panic_line, middlewares, serve_http, serve_each,
}

-- What the counters hold of the requests.
pub record Counters : Type 0 where
  pub hits : List String
  pub statuses : List (String × String)
  pub requests : List (String × String × ℕ)

abbrev pub counters : Telemetry → Counters
counters t = record { hits = t.hits; statuses = t.hits_statuses; requests = t.http_requests_total }

-- What a request adds, by what its handler returns: a response is counted with its status, a panic
-- as a hit alone.
abbrev pub counted : (ℕ → String) → Request → Result Response → Counters → Counters
counted status_text req (ok r) c = record {
  hits = path_of req ∷ c.hits;
  statuses = (path_of req, status_text r.status) ∷ c.statuses;
  requests = (method_of req, path_of req, r.status) ∷ c.requests;
}
counted status_text req (err x) c = record c { hits = path_of req ∷ c.hits }
counted status_text req panic c = record c { hits = path_of req ∷ c.hits }

endpoint_lem : (req : Request) → get_endpoint (some (path_of req, path_of req)) ≡ path_of req
unfolding get_endpoint
endpoint_lem get_health = refl
endpoint_lem get_stats_assignments = refl
endpoint_lem (post_team_add body) = refl
endpoint_lem (get_team_get name) = refl
endpoint_lem (post_team_deactivate body) = refl
endpoint_lem (post_users_set_is_active body) = refl
endpoint_lem (get_users_get_review user_id) = refl
endpoint_lem (post_pull_request_create body) = refl
endpoint_lem (post_pull_request_merge body) = refl
endpoint_lem (post_pull_request_reassign body) = refl

-- The routes, when the handler returns `r` and leaves the state `w`.
abbrev pub returning : Result Response → World → Handler
returning r w i s = (r, record s { world = w; route = path_of i.request })

abbrev pub requests_of : List Incoming → List Request
requests_of [] = []
requests_of (i ∷ is) = i.request ∷ requests_of is

module _ (e : Env) (new_id : ℕ → String) (status_text duration_text : ℕ → String) where
  abbrev through : Result Response → World → Handler
  through r w i s =
      middlewares e new_id status_text duration_text (returning r w) i (record s { route = "" })

  through-answer :
      (r : Result Response) (w : World) (i : Incoming) (s : State)
      → ((through r w i s).0 ≡ recover_result r) × ((through r w i s).1.world ≡ w)
  unfolding middlewares end_request observe_request
  through-answer (ok r) w i s = (refl, refl)
  through-answer (err x) w i s = (refl, refl)
  through-answer panic w i s = (refl, refl)

  through-counted :
      (r : Result Response) (w : World) (i : Incoming) (s : State)
      → counters (through r w i s).1.telemetry
        ≡ counted status_text i.request r (counters s.telemetry)
  unfolding middlewares start_request end_request observe_request panic_line
  through-counted (ok r) w i s =
      ap
        (λ p. record {
          hits = path_of i.request ∷ s.telemetry.hits;
          statuses = (path_of i.request, status_text r.status) ∷ s.telemetry.hits_statuses;
          requests = (method_of i.request, p, r.status) ∷ s.telemetry.http_requests_total;
        })
        (endpoint_lem i.request)
  through-counted (err x) w i s = refl
  through-counted panic w i s = refl

module _ (e : Env) (do_tx : M MassDeactivateResult → M MassDeactivateResult) (new_id : ℕ → String)
    (status_text duration_text : ℕ → String) where
  -- The requests one after the other, without the chain.
  abbrev pub counted_all : List Incoming → World → Counters → Counters
  counted_all [] w c = c
  counted_all (i ∷ is) w c =
      let (r, w') = handle e do_tx i.request w in
      counted_all is w' (counted status_text i.request r c)

  -- The middleware changes nothing of what a request gets and does: the answer and the state of the
  -- service are those that the routes under the panic middleware give.
  pub serve_http-serve :
      (i : Incoming) (s : State)
      → ((serve_http e do_tx new_id status_text duration_text i s).0
          ≡ (serve e do_tx i.request s.world).0)
        × ((serve_http e do_tx new_id status_text duration_text i s).1.world
            ≡ (serve e do_tx i.request s.world).1)
  unfolding serve_http serve panic_middleware start_request
  serve_http-serve i s =
      let (r, w) = handle e do_tx i.request s.world in
      through-answer e new_id status_text duration_text r w i s

  serve_http-counted :
      (i : Incoming) (s : State)
      → counters (serve_http e do_tx new_id status_text duration_text i s).1.telemetry
        ≡ counted status_text i.request (handle e do_tx i.request s.world).0 (counters s.telemetry)
  unfolding serve_http start_request
  serve_http-counted i s =
      let (r, w) = handle e do_tx i.request s.world in
      through-counted e new_id status_text duration_text r w i s

  -- Whatever requests are served, the counters are those that the answers of the routes give, one
  -- after the other: a request that is answered counts once as a hit, once by its status and once
  -- by method, route and status; a request that panics counts as a hit alone. And the state of the
  -- service is what the routes leave.
  pub serve_each-counted_all :
      (is : List Incoming) (s : State)
      → (counters (serve_each e do_tx new_id status_text duration_text is s).telemetry
          ≡ counted_all is s.world (counters s.telemetry))
        × ((serve_each e do_tx new_id status_text duration_text is s).world
            ≡ serve_all e do_tx (requests_of is) s.world)
  unfolding serve_each serve_all serve panic_middleware
  serve_each-counted_all [] s = (refl, refl)
  serve_each-counted_all (i ∷ is) s =
      let s' = (serve_http e do_tx new_id status_text duration_text i s).1 in
      let (counted_rest, world_rest) = serve_each-counted_all is s' in
      let same_world = (serve_http-serve i s).1 in
      (
        counted_rest
            ∙ ap (λ w. counted_all is w (counters s'.telemetry)) same_world
            ∙ ap (counted_all is (handle e do_tx i.request s.world).1) (serve_http-counted i s),
        world_rest ∙ ap (serve_all e do_tx (requests_of is)) same_world,
      )
