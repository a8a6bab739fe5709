-- ===== src/Tests/Service.antt =====
-- The theorems on served requests, the middleware and the figures, on small tables.
use pr_reviewer_service.Prelude.{
  ℕ, String, ◌≡◌, some, [], ◌∷◌, ◌⊎◌, inl, inr, refl, Bool-cases, ◌==◌, false, pos, negsuc, arith,
  none, eq_iff, sym, ◌∙◌, true, count_if,
}
use pr_reviewer_service.Board.{Reach}
use pr_reviewer_service.Domain.{PullRequest}
use pr_reviewer_service.Logging.{background}
use pr_reviewer_service.Database.Schema.{Db, PrRow, find_pr, find_user}
use pr_reviewer_service.Picker.{is_blank}
use pr_reviewer_service.Repository.Monad.{ok}
use pr_reviewer_service.Repository.Triple.{After}
use pr_reviewer_service.Repository.Listings.{fetch_assignment_stats}
use pr_reviewer_service.Service.Basic.{create_team}
use pr_reviewer_service.Http.Answers.{internal_error, bad_team, handle-Misnamed}
use pr_reviewer_service.Http.Mapper.{to_domain_team}
use pr_reviewer_service.Http.Router.{
  post_team_add, get_team_get, post_pull_request_create, get_team_get, handle, serve, serve_all,
}
use pr_reviewer_service.App.Logger.{level_info}
use pr_reviewer_service.Http.Middleware.{Telemetry, State, Incoming, serve_http, serve_each}
use pr_reviewer_service.Http.Middleware.Laws.{
  counters, counted_all, requests_of, serve_http-serve, serve_each-counted_all,
}
use pr_reviewer_service.Http.Middleware.Lines.{IsLogged, serve_http-IsLogged}
use pr_reviewer_service.Integrity.Invariant.{IsConsistent, view, empty-IsConsistent}
use pr_reviewer_service.Integrity.Requests.{serve_all-Reach}
use pr_reviewer_service.Stability.Telemetry.{More, serve_each-More}
use pr_reviewer_service.Effects.Opening.{UniqueUsers}
use pr_reviewer_service.Effects.Reading.{Read}
use pr_reviewer_service.Effects.Create.{Assigned}
use pr_reviewer_service.Effects.Returns.Create.{create_pull_request_returns}
use pr_reviewer_service.Validation.{validate_pr_id, validate_pr_name, validate_user_id}
use pr_reviewer_service.Service.Assignment.{create_pull_request}
use pr_reviewer_service.Effects.Team.{CreatedTeam, create_team_outcome}
use pr_reviewer_service.Effects.Statistics.{Reported, fetch_assignment_stats_outcome}
use pr_reviewer_service.Tests.{
  quiet, run_through, run_through-Manages, world_of, start, team, day, one_pr, first_row, user_row,
  blank_is_not_empty, blank_is_refused,
}

serve_all-Reach_example : Reach (view start.db) (view (serve_all quiet run_through day start).db)
serve_all-Reach_example =
    serve_all-Reach quiet run_through run_through-Manages day start empty-IsConsistent

create_team_outcome_example :
    let (r, w') = create_team quiet (to_domain_team team) start in
    After
      (λ res. CreatedTeam start.db (to_domain_team team))
      (λ d. (d ≡ start.db) ⊎ CreatedTeam start.db (to_domain_team team) d)
      r
      w'.db
create_team_outcome_example = create_team_outcome quiet (to_domain_team team) start

fetch_assignment_stats_outcome_example :
    let (r, w') = fetch_assignment_stats quiet (world_of one_pr) in
    After (λ s d. (d ≡ one_pr) × Reported one_pr s) (λ d. d ≡ one_pr) r w'.db
fetch_assignment_stats_outcome_example = fetch_assignment_stats_outcome quiet (world_of one_pr)

abbrev no_telemetry : Telemetry
no_telemetry = record {
  hits = [];
  time_hits = [];
  hits_statuses = [];
  http_requests_total = [];
  http_request_duration = [];
  http_request_size = [];
  level = level_info;
  own_lines = [];
}

abbrev idle : State
idle = record { world = start; telemetry = no_telemetry; route = ""; ids = 0 }

abbrev id_of : ℕ → String
id_of n = "7d0c"

abbrev status_text : ℕ → String
status_text n = "Created"

abbrev duration_text : ℕ → String
duration_text n = "3ms"

abbrev adding : Incoming
adding = record { ctx = background; request = post_team_add (some team); content_length = pos 180 }

abbrev creating : Incoming
creating = record {
  ctx = background;
  request = post_pull_request_create (some (record { id = "pr"; name = "first"; author = "u1" }));
  content_length = pos 60;
}

serve_http-serve_example :
    ((serve_http quiet run_through id_of status_text duration_text adding idle).0
      ≡ (serve quiet run_through adding.request start).0)
    × ((serve_http quiet run_through id_of status_text duration_text adding idle).1.world
        ≡ (serve quiet run_through adding.request start).1)
serve_http-serve_example =
    serve_http-serve quiet run_through id_of status_text duration_text adding idle

serve_each-counted_all_example :
    (counters
        (serve_each quiet run_through id_of status_text duration_text
          (adding ∷ creating ∷ [])
          idle).telemetry
      ≡ counted_all quiet run_through id_of status_text duration_text
          (adding ∷ creating ∷ [])
          start
          (counters no_telemetry))
    × ((serve_each quiet run_through id_of status_text duration_text
          (adding ∷ creating ∷ [])
          idle).world
        ≡ serve_all quiet run_through (requests_of (adding ∷ creating ∷ [])) start)
serve_each-counted_all_example =
    serve_each-counted_all quiet run_through id_of status_text duration_text
      (adding ∷ creating ∷ []) idle

serve_each-More_example : More 2 (counters no_telemetry) (
    counters
      (serve_each quiet run_through id_of status_text duration_text
        (adding ∷ creating ∷ [])
        idle).telemetry)
serve_each-More_example =
    serve_each-More quiet run_through run_through-Manages id_of status_text duration_text
      (adding ∷ creating ∷ []) idle

-- A request that is refused, as it is answered.
abbrev blank : Incoming
blank = record { ctx = background; request = get_team_get " "; content_length = negsuc 0 }

blank_is_answered : handle quiet run_through (get_team_get " ") start ≡ (ok internal_error, start)
blank_is_answered =
    handle-Misnamed quiet run_through
      (bad_team " " "team name cannot be empty" blank_is_not_empty blank_is_refused) start

serve_http-IsLogged_example :
    IsLogged quiet id_of status_text duration_text blank idle internal_error start
      (serve_http quiet run_through id_of status_text duration_text blank
        idle).1.telemetry.own_lines
serve_http-IsLogged_example =
    serve_http-IsLogged quiet id_of status_text duration_text run_through blank idle internal_error
      start refl blank_is_answered

-- One open pull request that nobody reviews.
abbrev lone_pr : Db
lone_pr = record one_pr { reviewers = []; events = [] }

-- Its only row.
only_row : (p : String) (row : PrRow) → find_pr p lone_pr.prs ≡ some row → first_row ≡ row
unfolding find_pr
only_row p row e = elim (Bool-cases ("pr" == p)) [
  | inl c ↦ ground (arith, rw c at e)
  | inr c ↦ absurd (ground (arith, rw c at e))
]

named :
    (p : String) (row : PrRow) → find_pr p lone_pr.prs ≡ some row → is_blank row.author_id ≡ false
unfolding is_blank
named p row e = rw⁻¹ (only_row p row e) refl

lone_pr-IsConsistent : IsConsistent lone_pr
unfolding count_if find_pr
lone_pr-IsConsistent = record {
  no_self_review = λ p row e. refl;
  at_most_two = λ p. omega arith;
  no_stray = λ p e. refl;
  no_duplicate = λ p r. omega arith;
  logged = λ p r. refl;
  stamped = λ p row e. ground (arith, e);
  author_named = λ p row e. named p row e;
}

lone_pr_is_there : find_pr "pr" lone_pr.prs ≡ some first_row
unfolding find_pr
lone_pr_is_there = refl

apart : (a b u : String) → (a == b) ≡ false → (a == u) ≡ true → (b == u) ≡ false
apart a b u h k = elim (Bool-cases (b == u)) [
  | inr n ↦ n
  | inl y ↦
      let same : a ≡ b = (eq_iff a u).0 k ∙ sym ((eq_iff b u).0 y) in
      absurd (ground (arith, h, (eq_iff a b).1 same))
]

lone_pr-UniqueUsers : UniqueUsers lone_pr
unfolding count_if
lone_pr-UniqueUsers u =
    ground (arith, apart "u1" "u2" u refl, apart "u1" "u3" u refl, apart "u2" "u3" u refl)

second_is_valid : validate_pr_id "pr2" ≡ none
unfolding validate_pr_id
second_is_valid = refl

name_is_valid : validate_pr_name "second" ≡ none
unfolding validate_pr_name
name_is_valid = refl

author_is_valid : validate_user_id "u1" ≡ none
unfolding validate_user_id
author_is_valid = refl

author_is_there : find_user "u1" lone_pr.users ≡ some (user_row "u1")
unfolding find_user
author_is_there = refl

second_is_new : find_pr "pr2" lone_pr.prs ≡ none
unfolding find_pr
second_is_new = refl

create_pull_request_returns_example :
    (pr : PullRequest) × ((create_pull_request quiet "pr2" "second" "u1" (world_of lone_pr)).0
      ≡ ok pr)
    × Assigned lone_pr "pr2" "second" "u1"
        (create_pull_request quiet "pr2" "second" "u1" (world_of lone_pr)).1.db
    × Read (create_pull_request quiet "pr2" "second" "u1" (world_of lone_pr)).1.db "pr2" pr
create_pull_request_returns_example =
    create_pull_request_returns quiet (λ n. refl) "pr2" "second" "u1" (world_of lone_pr)
      (user_row "u1") second_is_valid name_is_valid author_is_valid author_is_there second_is_new
      lone_pr-UniqueUsers lone_pr-IsConsistent
