-- ===== src/Tests.antt =====
-- A run of the service on small tables, and the theorems at it.
pub mod Service
pub mod Process
pub mod Reassign
mod Tables
mod Requests
pub mod Samples
pub use pr_reviewer_service.Tests.Samples.{
  quiet, run_through, run_through-Manages, world_of, start, team, day, user_row, one_pr,
}
use pr_reviewer_service.Prelude.{
  ℕ, ◌≡◌, refl, String, false, none, some, List, [], ◌∷◌, ◌⊎◌, count, any_of, select, leb,
  if◌then◌else◌, ◌==◌,
}
use pr_reviewer_service.Domain.{merged, PullRequest, opened}
use pr_reviewer_service.Database.Schema.{PrRow, find_pr, empty_db}
use pr_reviewer_service.Repository.Monad.{
  err, sql, ok, Env, send, query, query_row, exec, on_error, ◌>>=◌,
}
use pr_reviewer_service.Repository.Triple.{After}
use pr_reviewer_service.Repository.Transaction.{with_tx}
use pr_reviewer_service.Repository.Transaction.Laws.{AllOrNothing, body_run, with_tx-AllOrNothing}
use pr_reviewer_service.Repository.PullRequests.{
  update_pr_status, update_pr_status_body, stamp_merged, get_pull_request, replace_reviewer,
  replace_reviewer_body,
}
use pr_reviewer_service.Picker.{is_blank, unique_ids, pick_random_ids}
use pr_reviewer_service.Picker.Laws.{IsPickOf, user_ids, pick_random_ids-IsPickOf}
use pr_reviewer_service.Picker.Unique.{count-unique_ids}
use pr_reviewer_service.Service.Basic.{merge_pull_request}
use pr_reviewer_service.Integrity.Invariant.{IsConsistent, MergedFrozen, empty-IsConsistent}
use pr_reviewer_service.Integrity.Requests.{serve_all-IsConsistent, serve_all-MergedFrozen}
use pr_reviewer_service.Stability.Requests.{handle_responds}
use pr_reviewer_service.Effects.Replace.{Succeeded, replace_reviewer_outcome}
use pr_reviewer_service.Effects.Merge.{
  Answer, Merged, merge_pull_request_outcome, merge_pull_request_again,
}
use pr_reviewer_service.Http.Response.{Response}
use pr_reviewer_service.Http.Router.{post_team_add, get_team_get, handle, serve_all}
use pr_reviewer_service.Effects.Partial.{FailsMidway, deactivate_targets_partial}
use pr_reviewer_service.Effects.Deactivate.{Deactivated}
use pr_reviewer_service.Service.Deactivation.{deactivate_targets}
use pr_reviewer_service.Effects.Grouping.{rows_of, entries-group}
use pr_reviewer_service.Repository.Listings.{entries, group}
use pr_reviewer_service.Effects.Create.{Assigned, create_pull_request_outcome}
use pr_reviewer_service.Effects.Reassign.{Reassigned, reassign_reviewer_outcome}
use pr_reviewer_service.Effects.Reading.{Read, get_pull_request_outcome}
use pr_reviewer_service.Effects.Returns.{merge_pull_request_returns}
use pr_reviewer_service.Service.Assignment.{create_pull_request, reassign_reviewer}
use pr_reviewer_service.Validation.{validate_team_name, validate_pr_id}
use pr_reviewer_service.Http.Answers.{bad_team, internal_error, handle-Misnamed}
use pr_reviewer_service.Database.Queries.{reviewer_ids}
use pr_reviewer_service.Database.Statements.{fault, update_status}
use pr_reviewer_service.Tests.Samples.{candidates}

serve_all-IsConsistent_example : IsConsistent (serve_all quiet run_through day start).db
serve_all-IsConsistent_example =
    serve_all-IsConsistent quiet run_through run_through-Manages day start empty-IsConsistent

serve_all-MergedFrozen_example : MergedFrozen empty_db (serve_all quiet run_through day start).db
serve_all-MergedFrozen_example =
    serve_all-MergedFrozen quiet run_through run_through-Manages day start empty-IsConsistent

handle_responds_example :
    (r : Response) × ((handle quiet run_through (post_team_add (some team)) start).0 ≡ ok r)
handle_responds_example =
    handle_responds quiet run_through run_through-Manages (post_team_add (some team)) start

with_tx-AllOrNothing_example :
    AllOrNothing one_pr
      (body_run quiet (replace_reviewer_body quiet "pr" "u2" "u3" "MANUAL") (world_of one_pr))
      (with_tx quiet (replace_reviewer_body quiet "pr" "u2" "u3" "MANUAL") (world_of one_pr))
with_tx-AllOrNothing_example =
    with_tx-AllOrNothing quiet (replace_reviewer_body quiet "pr" "u2" "u3" "MANUAL")
      (world_of one_pr)

replace_reviewer_outcome_example :
    let (r, w') = replace_reviewer quiet "pr" "u2" "u3" "MANUAL" (world_of one_pr) in
    After
      (λ res d. (res.1 ≡ "u3") × Succeeded one_pr "pr" "u2" "u3" "MANUAL" d × Read d "pr" res.0)
      (λ d. (d ≡ one_pr) ⊎ Succeeded one_pr "pr" "u2" "u3" "MANUAL" d)
      r
      w'.db
replace_reviewer_outcome_example =
    replace_reviewer_outcome quiet "pr" "u2" "u3" "MANUAL" (world_of one_pr)

merge_pull_request_outcome_example :
    let (r, w') = merge_pull_request quiet "pr" (world_of one_pr) in
    After (Answer one_pr "pr") (λ d. (d ≡ one_pr) ⊎ Merged one_pr "pr" d) r w'.db
merge_pull_request_outcome_example = merge_pull_request_outcome quiet "pr" (world_of one_pr)

pick_random_ids-IsPickOf_example :
    (ids : List String) × (k' : ℕ) × (pick_random_ids quiet.random candidates 2 0 ≡ some (ids, k'))
    × IsPickOf (user_ids candidates) 2 ids
pick_random_ids-IsPickOf_example = pick_random_ids-IsPickOf quiet.random candidates 2 0

count-unique_ids_example : count "u1" (unique_ids quiet.iterate ("u1" ∷ " " ∷ "u2" ∷ "u1" ∷ [])) ≡ 1
unfolding any_of is_blank
count-unique_ids_example =
    count-unique_ids quiet.iterate quiet.iterate_keeps "u1" ("u1" ∷ " " ∷ "u2" ∷ "u1" ∷ [])

create_pull_request_outcome_example :
    let (r, w') = create_pull_request quiet "pr2" "second" "u1" (world_of one_pr) in
    After
      (λ res d. Assigned one_pr "pr2" "second" "u1" d × Read d "pr2" res)
      (λ d. (d ≡ one_pr) ⊎ Assigned one_pr "pr2" "second" "u1" d)
      r
      w'.db
create_pull_request_outcome_example =
    create_pull_request_outcome quiet "pr2" "second" "u1" (world_of one_pr)

reassign_reviewer_outcome_example :
    let (r, w') = reassign_reviewer quiet "pr" "u2" (world_of one_pr) in
    After
      (λ res d. Reassigned one_pr "pr" "u2" res.1 d × Read d "pr" res.0)
      (λ d. (d ≡ one_pr) ⊎ ((new : String) × Reassigned one_pr "pr" "u2" new d))
      r
      w'.db
reassign_reviewer_outcome_example = reassign_reviewer_outcome quiet "pr" "u2" (world_of one_pr)

get_pull_request_outcome_example :
    let (r, w') = get_pull_request quiet "pr" (world_of one_pr) in
    After (λ pr d. (d ≡ one_pr) × Read one_pr "pr" pr) (λ d. d ≡ one_pr) r w'.db
get_pull_request_outcome_example = get_pull_request_outcome quiet "pr" (world_of one_pr)

abbrev pub first_row : PrRow
first_row = record {
  pull_request_id = "pr";
  pull_request_name = "first";
  author_id = "u1";
  status = opened;
  created_at = 0;
  merged_at = none;
}

pub pr_is_valid : validate_pr_id "pr" ≡ none
unfolding validate_pr_id
pr_is_valid = refl

pr_is_there : find_pr "pr" one_pr.prs ≡ some first_row
unfolding find_pr
pr_is_there = refl

merge_pull_request_returns_example :
    (pr : PullRequest) × ((merge_pull_request quiet "pr" (world_of one_pr)).0 ≡ ok pr)
    × Answer one_pr "pr" pr (merge_pull_request quiet "pr" (world_of one_pr)).1.db
merge_pull_request_returns_example =
    merge_pull_request_returns quiet (λ n. refl) "pr" (world_of one_pr) first_row pr_is_valid
      pr_is_there

abbrev open_rows : List (String × String)
open_rows = ("u2", "pr") ∷ ("u3", "pr") ∷ ("u2", "pr2") ∷ []

entries-group_example : entries "u2" (group open_rows []) ≡ rows_of "u2" open_rows
entries-group_example = entries-group "u2" open_rows

pub blank_is_not_empty : (" " == "") ≡ false
blank_is_not_empty = refl

pub blank_is_refused : validate_team_name " " ≡ some "team name cannot be empty"
unfolding validate_team_name
blank_is_refused = refl

handle-Misnamed_example :
    handle quiet run_through (get_team_get " ") (world_of one_pr)
    ≡ (ok internal_error, world_of one_pr)
handle-Misnamed_example =
    handle-Misnamed quiet run_through
      (bad_team " " "team name cannot be empty" blank_is_not_empty blank_is_refused)
      (world_of one_pr)

abbrev merged_pr : PullRequest
merged_pr = record {
  id = "pr";
  name = "first";
  author_id = "u1";
  status = merged;
  assigned_reviewers = "u2" ∷ [];
  created_at = 0;
  merged_at = some 1;
}

first_merge : (merge_pull_request quiet "pr" (world_of one_pr)).0 ≡ ok merged_pr
unfolding merge_pull_request update_pr_status update_pr_status_body stamp_merged get_pull_request
    with_tx send query query_row exec on_error ◌>>=◌ find_pr reviewer_ids select update_status
    validate_pr_id
first_merge = refl

merge_pull_request_again_example :
    let w₁ = (merge_pull_request quiet "pr" (world_of one_pr)).1 in
    (merge_pull_request quiet "pr" w₁).1.db ≡ w₁.db
merge_pull_request_again_example =
    merge_pull_request_again quiet "pr" (world_of one_pr) merged_pr first_merge

-- The calls fail from the fifth on.
abbrev midway : Env
midway = record quiet { fault = λ n. if leb 4 n then some 7 else none }

midway-FailsMidway : FailsMidway midway (world_of one_pr) 7
midway-FailsMidway = record {
  begun = refl;
  updated = refl;
  committed = refl;
  read_back = refl;
  failed = refl;
}

deactivate_targets_partial_example :
    ((deactivate_targets midway "core" ("u2" ∷ []) (world_of one_pr)).0 ≡ err (sql (fault 7)))
    × Deactivated one_pr
        ("u2" ∷ [])
        (deactivate_targets midway "core" ("u2" ∷ []) (world_of one_pr)).1.db
deactivate_targets_partial_example =
    deactivate_targets_partial midway (world_of one_pr) 7 "core" "u2" [] midway-FailsMidway
