-- ===== src/Stability/Telemetry.antt =====
-- The counters of internal/http/middleware and internal/metrics.
use pr_reviewer_service.Prelude.{ℕ, ◌+◌, ◌≡◌, String, List, [], ◌∷◌, length, arith}
use pr_reviewer_service.Repository.Monad.{World, Env, M}
use pr_reviewer_service.Service.Deactivation.{MassDeactivateResult}
use pr_reviewer_service.Http.Router.{Request, handle}
use pr_reviewer_service.Http.Middleware.{State, Incoming, serve_each}
use pr_reviewer_service.Http.Middleware.Laws.{
  Counters, counters, counted, counted_all, serve_each-counted_all,
}
use pr_reviewer_service.Integrity.Deactivation.{Manages}
use pr_reviewer_service.Stability.Requests.{handle_responds}

-- Each counter has counted `n` requests more.
pub record More (n : ℕ) (c c' : Counters) : Type 0 where
  pub hits : length c'.hits ≡ n + length c.hits
  pub statuses : length c'.statuses ≡ n + length c.statuses
  pub requests : length c'.requests ≡ n + length c.requests

module _ (e : Env) (do_tx : M MassDeactivateResult → M MassDeactivateResult)
    (manager : Manages do_tx) (new_id : ℕ → String) (status_text duration_text : ℕ → String) where
  counted-More :
      (req : Request) (w : World) (c : Counters)
      → More 1 c (counted status_text req (handle e do_tx req w).0 c)
  counted-More req w c =
      let (r, answered) = handle_responds e do_tx manager req w in
      rw answered (record { hits = omega arith; statuses = omega arith; requests = omega arith })

  counted_all-More :
      (is : List Incoming) (w : World) (c : Counters)
      → More (length is) c (counted_all e do_tx new_id status_text duration_text is w c)
  counted_all-More [] w c = record {
    hits = omega arith;
    statuses = omega arith;
    requests = omega arith;
  }
  counted_all-More (i ∷ is) w c =
      let (r, w') = handle e do_tx i.request w in
      let one = counted-More i.request w c in
      let rest = counted_all-More is w' (counted status_text i.request r c) in
      record {
        hits = omega (arith, one.hits, rest.hits);
        statuses = omega (arith, one.statuses, rest.statuses);
        requests = omega (arith, one.requests, rest.requests);
      }

  -- Each counter counts every request once, however many are served, from any state, in whatever
  -- order and with whatever failures of the database.
  pub serve_each-More :
      (is : List Incoming) (s : State)
      → More
          (length is)
          (counters s.telemetry)
          (counters (serve_each e do_tx new_id status_text duration_text is s).telemetry)
  serve_each-More is s =
      rw (serve_each-counted_all e do_tx new_id status_text duration_text is s).0
        (counted_all-More is s.world (counters s.telemetry))
