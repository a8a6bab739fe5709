-- ===== src/Domain.antt =====
-- internal/domain/models.go and internal/domain/errors.go: the data that every layer shares.
-- Times are instants on an abstract clock; an identifier is a text.
use pr_reviewer_service.Prelude.{ℕ, String, Bool, true, false, Option, List}

-- `PRStatus`; the constants are "OPEN" and "MERGED".
pub data PrStatus : Type 0 where
  opened merged : PrStatus

abbrev pub status_eq : PrStatus → PrStatus → Bool
status_eq opened opened = true
status_eq merged merged = true
status_eq _ _ = false

pub record User : Type 0 where
  pub id : String
  pub username : String
  pub team_name : String
  pub is_active : Bool

pub record Team : Type 0 where
  pub name : String
  pub members : List User

pub record PullRequest : Type 0 where
  pub id : String
  pub name : String
  pub author_id : String
  pub status : PrStatus
  pub assigned_reviewers : List String
  pub created_at : ℕ
  pub merged_at : Option ℕ

pub record PullRequestShort : Type 0 where
  pub id : String
  pub name : String
  pub author_id : String
  pub status : PrStatus

pub record UserAssignmentStat : Type 0 where
  pub user_id : String
  pub username : String
  pub team_name : String
  pub assigned : ℕ
  pub active_prs : ℕ

pub record PrAssignmentStat : Type 0 where
  pub pull_request_id : String
  pub reviewer_count : ℕ

pub record AssignmentStats : Type 0 where
  pub per_user : List UserAssignmentStat
  pub per_pr : List PrAssignmentStat

pub data DomainError : Type 0 where
  err_team_exists err_team_not_found err_user_not_found : DomainError
  err_pr_exists err_pr_not_found err_pr_merged : DomainError
  err_reviewer_absent err_no_candidate : DomainError

-- The texts of the `errors.New` calls.
unfoldable pub message : DomainError → String
message err_team_exists = "team already exists"
message err_team_not_found = "team not found"
message err_user_not_found = "user not found"
message err_pr_exists = "pull request already exists"
message err_pr_not_found = "pull request not found"
message err_pr_merged = "pull request already merged"
message err_reviewer_absent = "reviewer not assigned to pull request"
message err_no_candidate = "no candidate available"
