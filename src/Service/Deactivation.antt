-- ===== src/Service/Deactivation.antt =====
-- `MassDeactivate` of internal/service/service.go. A nil slice or map and an empty one are not told
-- apart. The transaction manager is a parameter: it is handed the closure that runs under `Do`.
use Prim.Native.String.{◌++◌}
use pr_reviewer_service.Prelude.{String, Bool, none, some, List, [], ◌∷◌, if◌then◌else◌}
use pr_reviewer_service.Domain.{User, message, err_user_not_found}
use pr_reviewer_service.Validation.{validate_team_name}
use pr_reviewer_service.Database.Statements.{SqlError}
use pr_reviewer_service.Picker.{unique_ids}
use pr_reviewer_service.Repository.Monad.{
  RepoError, build_query, execute_query, scan_result, Error, domain, invalid, http, sql, wrapped,
  Result, ok, err, panic, Env, M, pure, crash, lift, update_metrics, ◌>>=◌, ◌>>◌,
}
use pr_reviewer_service.Repository.Teams.{get_team}
use pr_reviewer_service.Repository.Users.{list_active_team_members, deactivate_users}
use pr_reviewer_service.Repository.PullRequests.{get_pull_request, replace_reviewer}
use pr_reviewer_service.Repository.Listings.{
  Dict, lookup, insert, entries, push, list_open_prs_by_reviewer,
}
use pr_reviewer_service.Service.Basic.{check, check_ids}
use pr_reviewer_service.Service.Assignment.{pick_one, count_reassignment}

pub record MassDeactivateInput : Type 0 where
  pub team_name : String
  pub user_ids : List String

pub record MassDeactivateResult : Type 0 where
  pub deactivated : List User
  pub reassigned : Dict (List String)
  pub skipped : Dict String

abbrev pub nothing_done : MassDeactivateResult
nothing_done = record { deactivated = []; reassigned = []; skipped = [] }

abbrev pub repo_text : RepoError → String
repo_text build_query = "failed to build SQL query"
repo_text execute_query = "failed to execute query"
repo_text scan_result = "failed to scan result"

-- `err.Error()`
unfoldable pub error_text : (SqlError → String) → Error → String
unfolding message
error_text text (domain x) = message x
error_text text (invalid s) = s
error_text text (http status code s) = s
error_text text (sql x) = text x
error_text text (wrapped kind x) = repo_text kind ++ ": " ++ text x

-- `membership[member.ID] = member`
unfoldable pub membership : List User → Dict User → Dict User
unfolding insert
membership [] m = m
membership (u ∷ us) m = membership us (insert u.id u m)

-- The active members, where no user is named.
unfoldable pub all_active : List User → List String
all_active [] = []
all_active (u ∷ us) = let rest = all_active us in if u.is_active then u.id ∷ rest else rest

abbrev pub keep_target : Bool → String → Result (List String) → Result (List String)
keep_target active id (ok ids) = ok (if active then id ∷ ids else ids)
keep_target active id other = other

-- The named users who are active; one who is not in the team ends the call.
unfoldable pub named_active : Dict User → List String → Result (List String)
unfolding lookup
named_active m [] = ok []
named_active m (id ∷ ids) = elim (lookup id m) [
  | none ↦ err (domain err_user_not_found)
  | some member ↦ keep_target member.is_active id (named_active m ids)
]

unfoldable pub targets : List User → List String → Result (List String)
unfolding all_active named_active membership
targets members [] = ok (all_active members)
targets members (id ∷ ids) = named_active (membership members []) (id ∷ ids)

module _ (e : Env) where
  -- `if len(candidates) > 0 { newReviewer = pickRandomIDs(...)[0] }`
  unfoldable pub choose_new : List User → M String
  choose_new [] = pure ""
  choose_new (c ∷ cs) = pick_one e (c ∷ cs)

  -- One pull request of a deactivated user, up to the metric.
  unfoldable pub hand_over : String → String → String → M (Unit {0})
  hand_over team_name user_id pr_id = do
    pr ← get_pull_request e pr_id
    candidates ←
        list_active_team_members e team_name
          (unique_ids e.iterate (user_id ∷ pr.author_id ∷ pr.assigned_reviewers))
    new_reviewer ← choose_new candidates
    replaced ← replace_reviewer e pr_id user_id new_reviewer "TEAM_DEACTIVATION"
    update_metrics count_reassignment

  -- The end of a round of the inner loop: an error is noted under the user and breaks the loop.
  unfoldable pub next_pull_request :
      (MassDeactivateResult → M MassDeactivateResult)
      → String
      → String
      → MassDeactivateResult
      → Result (Unit {0})
      → M MassDeactivateResult
  next_pull_request rest user_id p res (ok done) =
      rest (record res { reassigned = push user_id p res.reassigned })
  next_pull_request rest user_id p res (err x) =
      pure (record res { skipped = insert user_id (error_text e.sql_text x) res.skipped })
  next_pull_request rest user_id p res panic = crash

  unfoldable pub hand_over_all :
      String → String → List String → MassDeactivateResult → M MassDeactivateResult
  hand_over_all team_name user_id [] res w = (ok res, w)
  hand_over_all team_name user_id (p ∷ ps) res w =
      let (r, w') = hand_over team_name user_id p w in
      next_pull_request (hand_over_all team_name user_id ps) user_id p res r w'

  -- The outer loop; a user without open pull requests is passed over.
  unfoldable pub hand_over_users :
      String → Dict (List String) → List String → MassDeactivateResult → M MassDeactivateResult
  hand_over_users team_name open_prs [] res = pure res
  hand_over_users team_name open_prs (u ∷ us) res =
      hand_over_all team_name u (entries u open_prs) res >>= hand_over_users team_name open_prs us

  -- The closure that `Do` is given.
  unfoldable pub deactivate_targets : String → List String → M MassDeactivateResult
  deactivate_targets team_name ids = do
    deactivated ← deactivate_users e ids
    open_prs ← list_open_prs_by_reviewer e ids
    hand_over_users team_name open_prs ids
        (record { deactivated = deactivated; reassigned = []; skipped = [] })

  module _ (do_tx : M MassDeactivateResult → M MassDeactivateResult) where
    -- `if len(targetIDs) == 0`
    unfoldable pub run_targets : String → List String → M MassDeactivateResult
    run_targets team_name [] = pure nothing_done
    run_targets team_name (id ∷ ids) = do_tx (deactivate_targets team_name (id ∷ ids))

    unfoldable pub mass_deactivate : MassDeactivateInput → M MassDeactivateResult
    mass_deactivate input = do
      check (validate_team_name input.team_name)
      check_ids input.user_ids
      team ← get_team e input.team_name
      ids ← lift (targets team.members input.user_ids)
      run_targets team.name ids
