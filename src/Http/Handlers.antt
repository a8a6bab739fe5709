-- ===== src/Http/Handlers.antt =====
-- internal/http/handler/*/handler.go. A request body is `none` where decoding it fails; a query
-- parameter that is absent is the empty text.
use pr_reviewer_service.Prelude.{String, Bool, ◌||◌, Option, none, some, ◌==◌}
use pr_reviewer_service.Repository.Monad.{Env, M, pure, raise, raise_if, ◌>>=◌, ◌>>◌}
use pr_reviewer_service.Service.Basic
use pr_reviewer_service.Service.Assignment
use pr_reviewer_service.Service.Deactivation
use pr_reviewer_service.Service.Deactivation.{MassDeactivateInput, MassDeactivateResult}
use pr_reviewer_service.Http.Response.{
  ApiTeam, team_created, team_found, user_updated, pr_changed, pr_reassigned, review_list,
  statistics, deactivation, Response, bad_request_error,
}
use pr_reviewer_service.Http.Mapper.{to_domain_team, from_domain_team}

pub record CreateRequest : Type 0 where
  pub id : String
  pub name : String
  pub author : String

pub record ReassignRequest : Type 0 where
  pub pr_id : String
  pub old_user_id : String

pub record ActivityRequest : Type 0 where
  pub user_id : String
  pub is_active : Bool

abbrev pub read_body : {A : Type 0} → Option A → M A
read_body none = raise (bad_request_error "INVALID_BODY" "не удалось прочитать тело запроса")
read_body (some a) = pure a

abbrev pub require : Bool → String → M (Unit {0})
require missing text = raise_if missing (bad_request_error "VALIDATION_ERROR" text)

module _ (e : Env) where
  unfoldable pub add_team : Option ApiTeam → M Response
  add_team body = do
    req ← read_body body
    require (req.team_name == "") "team_name обязателен"
    team ← Basic.create_team e (to_domain_team req)
    pure (record { status = 201; payload = team_created (from_domain_team team) })

  unfoldable pub get_team : String → M Response
  get_team name = do
    require (name == "") "team_name обязателен"
    team ← Basic.get_team e name
    pure (record { status = 200; payload = team_found (from_domain_team team) })

  unfoldable pub set_is_active : Option ActivityRequest → M Response
  set_is_active body = do
    req ← read_body body
    require (req.user_id == "") "user_id обязателен"
    user ← Basic.set_user_activity e req.user_id req.is_active
    pure (record { status = 200; payload = user_updated user })

  unfoldable pub get_review : String → M Response
  get_review user_id = do
    require (user_id == "") "user_id обязателен"
    assignments ← Basic.list_review_assignments e user_id
    pure (record { status = 200; payload = review_list user_id assignments })

  unfoldable pub create : Option CreateRequest → M Response
  create body = do
    req ← read_body body
    require (req.id == "" || req.name == "" || req.author == "") "все поля обязательны"
    pr ← Assignment.create_pull_request e req.id req.name req.author
    pure (record { status = 201; payload = pr_changed pr })

  unfoldable pub merge : Option String → M Response
  merge body = do
    id ← read_body body
    require (id == "") "pull_request_id обязателен"
    pr ← Basic.merge_pull_request e id
    pure (record { status = 200; payload = pr_changed pr })

  unfoldable pub reassign : Option ReassignRequest → M Response
  reassign body = do
    req ← read_body body
    require (req.pr_id == "" || req.old_user_id == "") "pull_request_id и old_user_id обязательны"
    replaced ← Assignment.reassign_reviewer e req.pr_id req.old_user_id
    pure (record { status = 200; payload = pr_reassigned replaced.0 replaced.1 })

  unfoldable pub assignments : M Response
  assignments = do stats ← Basic.stats e; pure (record { status = 200; payload = statistics stats })

  unfoldable pub deactivate :
      (M MassDeactivateResult → M MassDeactivateResult) → Option MassDeactivateInput → M Response
  deactivate do_tx body = do
    req ← read_body body
    require (req.team_name == "") "team_name обязателен"
    result ← Deactivation.mass_deactivate e do_tx req
    pure (record { status = 200; payload = deactivation result })
