-- ===== src/Http/Response.antt =====
-- internal/http/handler/common/response.go and internal/http/middleware/panic.go. A body is kept as
-- the value that is encoded.
use pr_reviewer_service.Prelude.{ℕ, String, Bool, List}
use pr_reviewer_service.Domain.{
  User, PullRequest, PullRequestShort, AssignmentStats, DomainError, err_team_exists,
  err_team_not_found, err_user_not_found, err_pr_exists, err_pr_not_found, err_pr_merged,
  err_reviewer_absent, err_no_candidate, message,
}
use pr_reviewer_service.Repository.Monad.{
  Error, domain, invalid, http, sql, wrapped, Result, ok, err, panic, M,
}
use pr_reviewer_service.Service.Deactivation.{MassDeactivateResult}

-- `api.TeamMember` and `api.Team` of internal/api/types.gen.go
pub record ApiMember : Type 0 where
  pub user_id : String
  pub username : String
  pub is_active : Bool

pub record ApiTeam : Type 0 where
  pub team_name : String
  pub members : List ApiMember

-- What `RespondJSON` encodes. `api_error` is `APIError`, with its code and message.
pub data Payload : Type 0 where
  api_error : String → String → Payload
  team_created : ApiTeam → Payload
  team_found : ApiTeam → Payload
  user_updated : User → Payload
  pr_changed : PullRequest → Payload
  pr_reassigned : PullRequest → String → Payload
  review_list : String → List PullRequestShort → Payload
  statistics : AssignmentStats → Payload
  deactivation : MassDeactivateResult → Payload
  health_ok : Payload
  health_degraded : Error → Payload

pub record Response : Type 0 where
  pub status : ℕ
  pub payload : Payload

-- `NewBadRequestError`
abbrev pub bad_request_error : String → String → Error
bad_request_error code text = http 400 code text

abbrev pub respond_error : ℕ → String → String → Response
respond_error status code text = record { status = status; payload = api_error code text }

unfoldable pub domain_response : DomainError → Response
unfolding message
domain_response err_team_exists = respond_error 400 "TEAM_EXISTS" (message err_team_exists)
domain_response err_team_not_found = respond_error 404 "NOT_FOUND" (message err_team_not_found)
domain_response err_user_not_found = respond_error 404 "NOT_FOUND" (message err_user_not_found)
domain_response err_pr_not_found = respond_error 404 "NOT_FOUND" (message err_pr_not_found)
domain_response err_pr_exists = respond_error 409 "PR_EXISTS" (message err_pr_exists)
domain_response err_pr_merged = respond_error 409 "PR_MERGED" (message err_pr_merged)
domain_response err_reviewer_absent = respond_error 409 "NOT_ASSIGNED" (message err_reviewer_absent)
domain_response err_no_candidate = respond_error 409 "NO_CANDIDATE" (message err_no_candidate)

-- `WriteDomainError`: the switch compares error values, so whatever is no domain error is internal.
unfoldable pub write_domain_error : Error → Response
unfolding domain_response
write_domain_error (domain x) = domain_response x
write_domain_error _ = respond_error 500 "INTERNAL_ERROR" "internal server error"

unfoldable pub error_response : Error → Response
unfolding write_domain_error
error_response (http status code text) = respond_error status code text
error_response (domain x) = write_domain_error (domain x)
error_response (invalid text) = write_domain_error (invalid text)
error_response (sql x) = write_domain_error (sql x)
error_response (wrapped kind x) = write_domain_error (wrapped kind x)

abbrev pub answer_result : Result Response → Result Response
answer_result (ok r) = ok r
answer_result (err x) = ok (error_response x)
answer_result panic = panic

-- `WithErrorHandling`
unfoldable pub with_error_handling : M Response → M Response
with_error_handling m w = let (r, w') = m w in (answer_result r, w')

abbrev pub recover_result : Result Response → Result Response
recover_result panic = ok (respond_error 500 "UNKNOWN" "Internal server error")
recover_result other = other

-- `PanicMiddleware`
unfoldable pub panic_middleware : M Response → M Response
panic_middleware m w = let (r, w') = m w in (recover_result r, w')
