-- ===== src/Database/Schema.antt =====
-- migrations/*.sql: the rows of the five tables.
use pr_reviewer_service.Prelude.{
  ℕ, String, Bool, Option, List, [], ◌∷◌, none, some, ◌==◌, any_of, ◌&&◌, if◌then◌else◌,
}
use pr_reviewer_service.Domain.{PrStatus}

pub record TeamRow : Type 0 where
  pub team_name : String
  pub created_at : ℕ

pub record UserRow : Type 0 where
  pub user_id : String
  pub username : String
  pub team_name : String
  pub is_active : Bool
  pub created_at : ℕ
  pub updated_at : ℕ

pub record PrRow : Type 0 where
  pub pull_request_id : String
  pub pull_request_name : String
  pub author_id : String
  pub status : PrStatus
  pub created_at : ℕ
  pub merged_at : Option ℕ

pub record ReviewerRow : Type 0 where
  pub pull_request_id : String
  pub reviewer_id : String
  pub assigned_at : ℕ

-- `event_type IN ('ASSIGNED','UNASSIGNED')`
pub data EventType : Type 0 where
  assigned unassigned : EventType

pub record EventRow : Type 0 where
  pub pull_request_id : String
  pub reviewer_id : String
  pub event_type : EventType
  pub source : String
  pub created_at : ℕ

pub record Db : Type 0 where
  pub teams : List TeamRow
  pub users : List UserRow
  pub prs : List PrRow
  pub reviewers : List ReviewerRow
  pub events : List EventRow

abbrev pub empty_db : Db
empty_db = record { teams = []; users = []; prs = []; reviewers = []; events = [] }

-- `SELECT EXISTS(SELECT 1 FROM teams WHERE team_name=$1)`
unfoldable pub has_team : String → List TeamRow → Bool
has_team t = any_of (λ r. r.team_name == t)

-- A select by primary key.
unfoldable pub find_user : String → List UserRow → Option UserRow
find_user u [] = none
find_user u (x ∷ xs) = if x.user_id == u then some x else find_user u xs

unfoldable pub find_pr : String → List PrRow → Option PrRow
find_pr p [] = none
find_pr p (x ∷ xs) = if x.pull_request_id == p then some x else find_pr p xs

-- `pull_request_id=$1 AND reviewer_id=$2`
abbrev pub reviews : String → String → ReviewerRow → Bool
reviews p r x = x.pull_request_id == p && x.reviewer_id == r

-- `SELECT EXISTS(SELECT 1 FROM pull_request_reviewers WHERE pull_request_id=$1 AND reviewer_id=$2)`
unfoldable pub is_reviewer : String → String → List ReviewerRow → Bool
is_reviewer p r = any_of (reviews p r)
