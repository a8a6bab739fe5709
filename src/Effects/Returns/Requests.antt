-- ===== src/Effects/Returns/Requests.antt =====
-- Opening a pull request over HTTP, where no call to the database fails, after other requests.
use pr_reviewer_service.Prelude.{
  ℕ, String, ◌≡◌, refl, false, none, some, List, ◌==◌, eq_iff, inl, inr, Bool-cases, arith,
}
use pr_reviewer_service.Domain.{PullRequest}
use pr_reviewer_service.Validation.{validate, validate_pr_id, validate_pr_name, validate_user_id}
use pr_reviewer_service.Database.Schema.{UserRow, Db, find_user, find_pr}
use pr_reviewer_service.Repository.Monad.{Result, ok, World, Env, M, ◌>>=◌}
use pr_reviewer_service.Service.Assignment.{create_pull_request}
use pr_reviewer_service.Service.Deactivation.{MassDeactivateResult}
use pr_reviewer_service.Http.Response.{Response, pr_changed, with_error_handling}
use pr_reviewer_service.Http.Handlers.{CreateRequest, create}
use pr_reviewer_service.Http.Router.{Request, post_pull_request_create, handle, serve_all}
use pr_reviewer_service.Integrity.Invariant.{IsConsistent}
use pr_reviewer_service.Integrity.Deactivation.{Manages}
use pr_reviewer_service.Integrity.Requests.{serve_all-IsConsistent}
use pr_reviewer_service.Stability.Keys.{IsKeyed}
use pr_reviewer_service.Stability.Keys.Requests.{serve_all-IsKeyed}
use pr_reviewer_service.Effects.Create.{Assigned}
use pr_reviewer_service.Effects.Reading.{Read}
use pr_reviewer_service.Effects.Returns.Create.{create_pull_request_returns}

-- A text that is accepted is not the empty one.
given : (limit : ℕ) (blank long s : String) → validate limit blank long s ≡ none → (s == "") ≡ false
unfolding validate
given limit blank long s accepted = elim (Bool-cases (s == "")) [
  | inr kept ↦ kept
  | inl missing ↦
      let is_empty : s ≡ "" = (eq_iff s "").0 missing in
      absurd (ground (arith, rw is_empty at accepted))
]

pr_id_given : (s : String) → validate_pr_id s ≡ none → (s == "") ≡ false
unfolding validate_pr_id
pr_id_given = given _ _ _

pr_name_given : (s : String) → validate_pr_name s ≡ none → (s == "") ≡ false
unfolding validate_pr_name
pr_name_given = given _ _ _

user_id_given : (s : String) → validate_user_id s ≡ none → (s == "") ≡ false
unfolding validate_user_id
user_id_given = given _ _ _

-- What the service may be asked to open.
pub record Openable (req : CreateRequest) (d : Db) : Type 0 where
  pub id_accepted : validate_pr_id req.id ≡ none
  pub name_accepted : validate_pr_name req.name ≡ none
  pub author_accepted : validate_user_id req.author ≡ none
  pub row : UserRow
  pub known : find_user req.author d.users ≡ some row
  pub fresh : find_pr req.id d.prs ≡ none

-- The request was answered with a 201 and the pull request as the tables hold it, and it is opened as
-- the service promises.
abbrev pub Opened : CreateRequest → Db → Result Response × World → Type 0
Opened req d (r, w) =
    (pr : PullRequest) × (r ≡ ok (record { status = 201; payload = pr_changed pr }))
    × Assigned d req.id req.name req.author w.db
    × Read w.db req.id pr

create_answers :
    (e : Env) (do_tx : M MassDeactivateResult → M MassDeactivateResult) (req : CreateRequest)
    (w : World) (pr : PullRequest)
    → Openable req w.db
    → (create_pull_request e req.id req.name req.author w).0 ≡ ok pr
    → Assigned w.db req.id req.name req.author
        (create_pull_request e req.id req.name req.author w).1.db
    → Read (create_pull_request e req.id req.name req.author w).1.db req.id pr
    → Opened req w.db (handle e do_tx (post_pull_request_create (some req)) w)
unfolding handle with_error_handling create ◌>>=◌
create_answers e do_tx req w pr h returned assigned read =
    rw
      (
        pr_id_given req.id h.id_accepted,
        pr_name_given req.name h.name_accepted,
        user_id_given req.author h.author_accepted,
        returned,
      )
      (pr, refl, assigned, read)

-- Whatever has been served before, in whatever order and with whatever failures of the database,
-- from consistent tables whose keys hold, such as empty ones: a request to open a pull request, with
-- texts that the service accepts, under a new id and of an author who is there, is answered with a
-- 201, where no call to the database fails from then on; its row is written as open, and its
-- reviewers are active members of the author's team other than the author, as many as there are and
-- at most two; the answer holds this row with these reviewers.
pub served_create_returns :
    (e e' : Env) (do_tx : M MassDeactivateResult → M MassDeactivateResult)
    → Manages do_tx
    → ((n : ℕ) → e'.fault n ≡ none)
    → (reqs : List Request) (w : World) (req : CreateRequest) → IsConsistent w.db
    → IsKeyed w.db
    → Openable req (serve_all e do_tx reqs w).db
    → let w' = serve_all e do_tx reqs w in
      Opened req w'.db (handle e' do_tx (post_pull_request_create (some req)) w')
served_create_returns e e' do_tx manager calm reqs w req consistent keyed h =
    let w' = serve_all e do_tx reqs w in
    let (pr, returned, assigned, read) =
      create_pull_request_returns e' calm req.id req.name req.author w' h.row h.id_accepted
        h.name_accepted h.author_accepted h.known h.fresh
        (serve_all-IsKeyed e do_tx manager reqs w keyed).user_key
        (serve_all-IsConsistent e do_tx manager reqs w consistent) in
    create_answers e' do_tx req w' pr h returned assigned read
