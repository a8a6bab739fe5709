-- ===== src/Http/Answers.antt =====
-- What the handlers answer to requests that are refused.
use pr_reviewer_service.Prelude.{String, ◌≡◌, refl, true, false, none, some, ◌==◌, ◌||◌}
use pr_reviewer_service.Validation.{validate_team_name, validate_user_id, validate_pr_id}
use pr_reviewer_service.Repository.Monad.{ok, World, Env, M, ◌>>=◌}
use pr_reviewer_service.Service.Basic.{create_team, merge_pull_request}
use pr_reviewer_service.Service.Basic
use pr_reviewer_service.Service.Assignment
use pr_reviewer_service.Service.Deactivation
use pr_reviewer_service.Http.Mapper.{to_domain_team}
use pr_reviewer_service.Service.Deactivation.{MassDeactivateInput, MassDeactivateResult}
use pr_reviewer_service.Http.Response.{
  ApiTeam, Response, respond_error, error_response, with_error_handling,
}
use pr_reviewer_service.Http.Handlers.{
  CreateRequest, ReassignRequest, ActivityRequest, add_team, get_team, set_is_active, create, merge,
  reassign, deactivate, get_review,
}
use pr_reviewer_service.Http.Router.{
  Request, post_team_add, post_team_deactivate, post_users_set_is_active, post_pull_request_create,
  post_pull_request_merge, post_pull_request_reassign, get_team_get, get_users_get_review, handle,
}

-- The answers to a body that cannot be decoded, and to a field that is empty.
abbrev pub unreadable : Response
unreadable = respond_error 400 "INVALID_BODY" "не удалось прочитать тело запроса"

abbrev pub missing : String → Response
missing text = respond_error 400 "VALIDATION_ERROR" text

-- A request that lacks what its route asks for, with its answer: a body that cannot be decoded, or a
-- field that is empty where the route tests it.
pub data Lacks : Request → Response → Type 0 where
  team_add_body : Lacks (post_team_add none) unreadable
  deactivate_body : Lacks (post_team_deactivate none) unreadable
  activity_body : Lacks (post_users_set_is_active none) unreadable
  create_body : Lacks (post_pull_request_create none) unreadable
  merge_body : Lacks (post_pull_request_merge none) unreadable
  reassign_body : Lacks (post_pull_request_reassign none) unreadable
  create_fields :
      (r : CreateRequest)
      → (r.id == "" || r.name == "" || r.author == "") ≡ true
      → Lacks (post_pull_request_create (some r)) (missing "все поля обязательны")
  reassign_fields :
      (r : ReassignRequest)
      → (r.pr_id == "" || r.old_user_id == "") ≡ true
      → Lacks
          (post_pull_request_reassign (some r))
          (missing "pull_request_id и old_user_id обязательны")
  activity_field :
      (r : ActivityRequest)
      → (r.user_id == "") ≡ true
      → Lacks (post_users_set_is_active (some r)) (missing "user_id обязателен")
  team_field :
      (r : ApiTeam)
      → (r.team_name == "") ≡ true
      → Lacks (post_team_add (some r)) (missing "team_name обязателен")
  deactivate_field :
      (r : MassDeactivateInput)
      → (r.team_name == "") ≡ true
      → Lacks (post_team_deactivate (some r)) (missing "team_name обязателен")
  no_team : Lacks (get_team_get "") (missing "team_name обязателен")
  no_reviewer : Lacks (get_users_get_review "") (missing "user_id обязателен")
  no_pr : Lacks (post_pull_request_merge (some "")) (missing "pull_request_id обязателен")

-- A request whose required fields are there, and whose first field that the service checks is
-- refused: a text of blanks, or one that is too long.
pub data Misnamed : Request → Type 0 where
  bad_team :
      (name text : String)
      → (name == "") ≡ false
      → validate_team_name name ≡ some text
      → Misnamed (get_team_get name)
  bad_new_team :
      (r : ApiTeam) (text : String)
      → (r.team_name == "") ≡ false
      → validate_team_name r.team_name ≡ some text
      → Misnamed (post_team_add (some r))
  bad_deactivated_team :
      (r : MassDeactivateInput) (text : String)
      → (r.team_name == "") ≡ false
      → validate_team_name r.team_name ≡ some text
      → Misnamed (post_team_deactivate (some r))
  bad_user :
      (r : ActivityRequest) (text : String)
      → (r.user_id == "") ≡ false
      → validate_user_id r.user_id ≡ some text
      → Misnamed (post_users_set_is_active (some r))
  bad_reviewer :
      (u text : String)
      → (u == "") ≡ false
      → validate_user_id u ≡ some text
      → Misnamed (get_users_get_review u)
  bad_merged :
      (id text : String)
      → (id == "") ≡ false
      → validate_pr_id id ≡ some text
      → Misnamed (post_pull_request_merge (some id))
  bad_created :
      (r : CreateRequest) (text : String)
      → (r.id == "" || r.name == "" || r.author == "") ≡ false
      → validate_pr_id r.id ≡ some text
      → Misnamed (post_pull_request_create (some r))
  bad_reassigned :
      (r : ReassignRequest) (text : String)
      → (r.pr_id == "" || r.old_user_id == "") ≡ false
      → validate_pr_id r.pr_id ≡ some text
      → Misnamed (post_pull_request_reassign (some r))

-- The answer that hides what was wrong.
abbrev pub internal_error : Response
internal_error = respond_error 500 "INTERNAL_ERROR" "internal server error"

module _ (e : Env) (do_tx : M MassDeactivateResult → M MassDeactivateResult) where
  -- A request whose required fields are there, but whose first field that the service checks (a
  -- team name, a user id or a pull request id) is refused, is answered with status 500 and
  -- INTERNAL_ERROR, before any call to the database: the state is as it was.
  pub handle-Misnamed :
      {req : Request} → Misnamed req → (w : World) → handle e do_tx req w ≡ (ok internal_error, w)
  unfolding handle with_error_handling add_team get_team set_is_active create merge reassign
      deactivate get_review ◌>>=◌ error_response to_domain_team Basic.create_team Basic.get_team
      Basic.set_user_activity Basic.list_review_assignments Basic.merge_pull_request
      Assignment.create_pull_request Assignment.reassign_reviewer Deactivation.mass_deactivate
  handle-Misnamed (bad_team name text h k) w = rw (h, k) refl
  handle-Misnamed (bad_new_team r text h k) w = rw (h, k) refl
  handle-Misnamed (bad_deactivated_team r text h k) w = rw (h, k) refl
  handle-Misnamed (bad_user r text h k) w = rw (h, k) refl
  handle-Misnamed (bad_reviewer u text h k) w = rw (h, k) refl
  handle-Misnamed (bad_merged id text h k) w = rw (h, k) refl
  handle-Misnamed (bad_created r text h k) w = rw (h, k) refl
  handle-Misnamed (bad_reassigned r text h k) w = rw (h, k) refl
