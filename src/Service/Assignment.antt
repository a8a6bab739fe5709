-- ===== src/Service/Assignment.antt =====
-- internal/service/service.go: creating a pull request with its reviewers, and reassigning one.
use pr_reviewer_service.Prelude.{suc, String, not, none, List, [], ◌∷◌, is_empty, str_mem}
use pr_reviewer_service.Domain.{
  opened, merged, status_eq, User, PullRequest, err_pr_merged, err_reviewer_absent,
  err_no_candidate,
}
use pr_reviewer_service.Validation.{validate_user_id, validate_pr_id, validate_pr_name}
use pr_reviewer_service.Picker.{pick, unique_ids}
use pr_reviewer_service.Repository.Monad.{
  domain, Metrics, Env, M, pure, crash, raise_if, update_metrics, now, ◌>>=◌, ◌>>◌,
}
use pr_reviewer_service.Repository.Users.{get_user_by_id, list_active_team_members}
use pr_reviewer_service.Repository.PullRequests
use pr_reviewer_service.Repository.PullRequests.{get_pull_request, replace_reviewer}
use pr_reviewer_service.Service.Basic.{check}

-- `ids[0]`
abbrev pub first : List String → M String
first [] = crash
first (x ∷ xs) = pure x

abbrev pub count_pull_request : Metrics → Metrics
count_pull_request m = record m { pull_requests_created = suc m.pull_requests_created }

abbrev pub count_reassignment : Metrics → Metrics
count_reassignment m = record m { reassignments = suc m.reassignments }

-- `pickRandomIDs(candidates, 1, s.randomizer)[0]`
unfoldable pub pick_one : Env → List User → M String
pick_one e candidates = do chosen ← pick e candidates 1; first chosen

module _ (e : Env) where
  -- Assigns the pull request built here to at most two active members of the author's team.
  unfoldable pub create_pull_request : String → String → String → M PullRequest
  create_pull_request pr_id name author_id = do
    check (validate_pr_id pr_id)
    check (validate_pr_name name)
    check (validate_user_id author_id)
    author ← get_user_by_id e author_id
    candidates ← list_active_team_members e author.team_name (author.id ∷ [])
    reviewers ← pick e candidates 2
    time ← now e
    created ←
        PullRequests.create_pull_request e
          (record {
            id = pr_id;
            name = name;
            author_id = author.id;
            status = opened;
            assigned_reviewers = [];
            created_at = time;
            merged_at = none;
          })
          reviewers
    update_metrics count_pull_request
    pure created

  unfoldable pub reassign_reviewer : String → String → M (PullRequest × String)
  reassign_reviewer pr_id old_reviewer = do
    check (validate_pr_id pr_id)
    check (validate_user_id old_reviewer)
    pr ← get_pull_request e pr_id
    raise_if (status_eq pr.status merged) (domain err_pr_merged)
    raise_if (not (str_mem old_reviewer pr.assigned_reviewers)) (domain err_reviewer_absent)
    old_user ← get_user_by_id e old_reviewer
    candidates ←
        list_active_team_members e old_user.team_name
          (unique_ids e.iterate (old_reviewer ∷ pr.author_id ∷ pr.assigned_reviewers))
    raise_if (is_empty candidates) (domain err_no_candidate)
    new_reviewer ← pick_one e candidates
    replaced ← replace_reviewer e pr_id old_reviewer new_reviewer "MANUAL_REASSIGN"
    update_metrics count_reassignment
    pure replaced
