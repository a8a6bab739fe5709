-- ===== src/Http/Keeping.antt =====
-- What the handlers and the routes keep of the tables, if the service keeps it.
use pr_reviewer_service.Prelude.{◌≡◌, refl, String, Bool, Option, none, some, List, [], ◌∷◌}
use pr_reviewer_service.Domain.{Team}
use pr_reviewer_service.Database.Schema.{Db}
use pr_reviewer_service.Repository.Monad.{Result, ok, err, panic, World, Env, M, pure, ◌>>=◌}
use pr_reviewer_service.Repository.Triple.{
  After, Holds, Triple, Triple-pure, Triple-bind, Triple-raise, Triple-raise_if, Triple-send,
}
use pr_reviewer_service.Repository.Calm.{Never}
use pr_reviewer_service.Service.Basic
use pr_reviewer_service.Service.Basic.{health_check}
use pr_reviewer_service.Service.Assignment
use pr_reviewer_service.Service.Deactivation
use pr_reviewer_service.Service.Deactivation.{MassDeactivateInput, MassDeactivateResult}
use pr_reviewer_service.Http.Response.{
  Response, answer_result, with_error_handling, panic_middleware,
}
use pr_reviewer_service.Http.Mapper.{to_domain_team}
use pr_reviewer_service.Http.Handlers.{
  read_body, require, add_team, get_team, set_is_active, get_review, create, merge, reassign,
  assignments, deactivate,
}
use pr_reviewer_service.Http.Router.{
  Request, get_health, get_stats_assignments, post_team_add, get_team_get, post_team_deactivate,
  post_users_set_is_active, get_users_get_review, post_pull_request_create, post_pull_request_merge,
  post_pull_request_reassign, health, health_result, handle, serve, serve_all,
}

-- Every use case keeps `I`.
pub record ServiceKeeps (I : Db → Type 0) (e : Env)
    (do_tx : M MassDeactivateResult → M MassDeactivateResult) : Type 0 where
  pub create_team : (team : Team) → Holds I (Basic.create_team e team)
  pub get_team : (name : String) → Holds I (Basic.get_team e name)
  pub set_user_activity :
      (u : String) (active : Bool) → Holds I (Basic.set_user_activity e u active)
  pub merge_pull_request : (p : String) → Holds I (Basic.merge_pull_request e p)
  pub list_review_assignments : (u : String) → Holds I (Basic.list_review_assignments e u)
  pub stats : Holds I (Basic.stats e)
  pub create_pull_request :
      (p name author : String) → Holds I (Assignment.create_pull_request e p name author)
  pub reassign_reviewer : (p old : String) → Holds I (Assignment.reassign_reviewer e p old)
  pub mass_deactivate :
      (input : MassDeactivateInput) → Holds I (Deactivation.mass_deactivate e do_tx input)

-- A program that answers every call: it keeps `I` and returns.
abbrev Answers : (Db → Type 0) → M Response → Type 0
Answers I m = Triple I m (λ _. I) Never

module _ (I : Db → Type 0) where
  body-Holds :
      {A : Type 0} (body : Option A) (f : A → M Response)
      → ((a : A) → Holds I (f a))
      → Holds I (read_body body >>= f)
  body-Holds none f h = Triple-bind _ _ (Triple-raise {Q = λ _. I} _ (λ d k. k)) h
  body-Holds (some a) f h = Triple-bind _ _ (Triple-pure {Q = λ _. I} a (λ d k. k)) h

  require-Holds :
      (missing : Bool) (text : String) (m : M Response)
      → Holds I m
      → Holds I (require missing text >>= λ _. m)
  require-Holds missing text m h =
      Triple-bind _ _ (Triple-raise_if missing _ (λ d k. k) (λ d _ k. k)) λ _. h

  reply-Holds :
      {A : Type 0} (m : M A) (f : A → Response) → Holds I m → Holds I (m >>= λ a. pure (f a))
  reply-Holds m f h = Triple-bind m _ h λ a. Triple-pure _ (λ d k. k)

  answer_lem :
      (r : Result Response) (d : Db)
      → After (λ _. I) I r d
      → After (λ _. I) Never (answer_result r) d
  answer_lem (ok a) d h = h
  answer_lem (err x) d h = h
  answer_lem panic d h = h

  Answers-with_error_handling : (m : M Response) → Holds I m → Answers I (with_error_handling m)
  unfolding with_error_handling
  Answers-with_error_handling m h = record { at = λ w k. answer_lem (m w).0 (m w).1.db (h.at w k) }

  health_lem :
      (r : Result (Unit {0})) (d : Db)
      → After (λ _. I) I r d
      → After (λ _. I) Never (health_result r) d
  health_lem (ok a) d h = h
  health_lem (err x) d h = h
  health_lem panic d h = h

  health-Answers : (e : Env) → Answers I (health e)
  unfolding health health_check
  health-Answers e = record {
    at = λ w k.
        let sent : Holds I (health_check e) = Triple-send e (λ d k. k) in
        health_lem (health_check e w).0 (health_check e w).1.db (sent.at w k);
  }

module _ {I : Db → Type 0} {e : Env} {do_tx : M MassDeactivateResult → M MassDeactivateResult}
    (s : ServiceKeeps I e do_tx) where
  handle-Answers : (req : Request) → Answers I (handle e do_tx req)
  unfolding handle add_team get_team set_is_active get_review create merge reassign assignments
      deactivate
  handle-Answers get_health = health-Answers I e
  handle-Answers get_stats_assignments = Answers-with_error_handling I _ (reply-Holds I _ _ s.stats)
  handle-Answers (post_team_add body) = Answers-with_error_handling I _ (
      body-Holds I body _
        λ req. require-Holds I _ _ _ (reply-Holds I _ _ (s.create_team (to_domain_team req))))
  handle-Answers (get_team_get name) =
      Answers-with_error_handling I _ (require-Holds I _ _ _ (reply-Holds I _ _ (s.get_team name)))
  handle-Answers (post_team_deactivate body) =
      Answers-with_error_handling I _ (
        body-Holds I body _
          λ req. require-Holds I _ _ _ (reply-Holds I _ _ (s.mass_deactivate req)))
  handle-Answers (post_users_set_is_active body) = Answers-with_error_handling I _ (
      body-Holds I body _ λ req.
        require-Holds I _ _ _ (reply-Holds I _ _ (s.set_user_activity req.user_id req.is_active)))
  handle-Answers (get_users_get_review user_id) =
      Answers-with_error_handling I _
        (require-Holds I _ _ _ (reply-Holds I _ _ (s.list_review_assignments user_id)))
  handle-Answers (post_pull_request_create body) = Answers-with_error_handling I _ (
      body-Holds I body _ λ req.
        require-Holds I _ _ _
          (reply-Holds I _ _ (s.create_pull_request req.id req.name req.author)))
  handle-Answers (post_pull_request_merge body) = Answers-with_error_handling I _ (
      body-Holds I body _ λ id. require-Holds I _ _ _ (reply-Holds I _ _ (s.merge_pull_request id)))
  handle-Answers (post_pull_request_reassign body) = Answers-with_error_handling I _ (
      body-Holds I body _ λ req.
        require-Holds I _ _ _ (reply-Holds I _ _ (s.reassign_reviewer req.pr_id req.old_user_id)))

  kept_lem :
      (r : Result Response) (d : Db)
      → After (λ _. I) Never r d
      → I d × ((a : Response) × (r ≡ ok a))
  kept_lem (ok a) d h = (h, (a, refl))
  kept_lem (err x) d h = absurd h
  kept_lem panic d h = absurd h

  pub answered :
      (req : Request) (w : World)
      → I w.db
      → I (handle e do_tx req w).1.db × ((a : Response) × ((handle e do_tx req w).0 ≡ ok a))
  answered req w k =
      kept_lem (handle e do_tx req w).0 (handle e do_tx req w).1.db ((handle-Answers req).at w k)

  -- What the service keeps holds after any list of requests, if it held before.
  pub serve_all-Keeps : (reqs : List Request) (w : World) → I w.db → I (serve_all e do_tx reqs w).db
  unfolding serve_all serve panic_middleware
  serve_all-Keeps [] w k = k
  serve_all-Keeps (req ∷ reqs) w k =
      serve_all-Keeps reqs (serve e do_tx req w).1 (answered req w k).0
