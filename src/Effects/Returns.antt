-- ===== src/Effects/Returns.antt =====
-- Merging a pull request where no call to the database fails.
pub mod Create
pub mod Replace
pub mod Reassign
pub mod Requests
use pr_reviewer_service.Prelude.{ℕ, String, ◌≡◌, refl, Bool, true, false, arith, Option, none, some}
use pr_reviewer_service.Domain.{merged, PullRequest, err_pr_not_found}
use pr_reviewer_service.Validation.{validate_pr_id}
use pr_reviewer_service.Database.Schema.{PrRow, Db, find_pr}
use pr_reviewer_service.Database.Statements.{update_status, with_status}
use pr_reviewer_service.Repository.Monad.{Result, ok, err, panic, World, Env, not_found, same_error}
use pr_reviewer_service.Repository.Triple.{After, Triple, Triple-pure, Triple-bind, Triple-on_error}
use pr_reviewer_service.Repository.Calm.{Never, calm_query, calm_query_row, calm_exec, calm_with_tx}
use pr_reviewer_service.Repository.PullRequests.{
  stamp_merged, update_pr_status_body, update_pr_status, get_pull_request,
}
use pr_reviewer_service.Service.Basic.{check, merge_pull_request}
use pr_reviewer_service.Effects.Merge.{Answer, find_pr-updated, merge_pull_request_outcome}

-- A program whose outcome is known and that returns.
pub returned :
    {A : Type 0} (Q : A → Db → Type 0) (X : Db → Type 0) (r : Result A) (d : Db)
    → After Q X r d
    → After (λ _ _. Unit {0}) Never r d
    → (a : A) × (r ≡ ok a) × Q a d
returned Q X (ok a) d h k = (a, refl, h)
returned Q X (err x) d h k = absurd k
returned Q X panic d h k = absurd k

-- The pull request is there.
abbrev pub Present : String → Db → Type 0
Present p d = (row : PrRow) × (find_pr p d.prs ≡ some row)

module _ (e : Env) (calm : (n : ℕ) → e.fault n ≡ none) where
  pub get_pull_request_calm :
      (p : String) → Triple (Present p) (get_pull_request e p) (λ _ _. Unit {0}) Never
  unfolding get_pull_request
  get_pull_request_calm p =
      Triple-bind _ _
        (Triple-on_error (not_found err_pr_not_found same_error) _ (
          calm_query_row e calm {Q = λ row d. Unit {0}} (λ d. find_pr p d.prs)
            (λ d h. (h.0, h.1, tt))))
        λ row.
          Triple-bind _ _ (calm_query e calm {Q = λ _ d. Unit {0}} _ (λ d h. tt))
            λ rs. Triple-pure _ (λ d h. tt)

  pub check_calm :
      {P : Db → Type 0} (o : Option String) → o ≡ none → Triple P (check o) (λ _. P) Never
  check_calm none h = Triple-pure tt (λ d k. k)
  check_calm (some x) h = absurd (ground arith)

  stamp_merged_calm :
      (t : ℕ) (p : String) (settled : Bool)
      → Triple (Present p) (stamp_merged e t p merged settled) (λ _. Present p) Never
  unfolding stamp_merged
  stamp_merged_calm t p true = Triple-pure tt (λ d h. h)
  stamp_merged_calm t p false = calm_exec e calm {Q = Present p} _ λ d h.
      let there : Present p (update_status p merged t d) =
        (with_status merged t h.0, find_pr-updated t p d h.0 h.1) in
      (update_status p merged t d, refl, there)

  merge_calm :
      (p : String)
      → validate_pr_id p ≡ none
      → Triple (Present p) (merge_pull_request e p) (λ _ _. Unit {0}) Never
  unfolding merge_pull_request update_pr_status update_pr_status_body
  merge_calm p valid = Triple-bind _ _ (check_calm (validate_pr_id p) valid) λ _.
      Triple-bind _ _
        (calm_with_tx e calm _ (λ t.
          Triple-bind _ _
            (Triple-on_error (not_found err_pr_not_found same_error) _ (
              calm_query_row e calm {Q = λ row. Present p} (λ d. find_pr p d.prs)
                (λ d h. (h.0, h.1, h))))
            λ row. stamp_merged_calm t p _))
        λ _. get_pull_request_calm p

-- Where no call to the database fails, merging a pull request that is there, under an id that the
-- service accepts, returns it as the tables then hold it, with its reviewers: it is merged and has a
-- merge time, the old one where it had one.
pub merge_pull_request_returns :
    (e : Env)
    → ((n : ℕ) → e.fault n ≡ none)
    → (p : String) (w : World) (row : PrRow) → validate_pr_id p ≡ none
    → find_pr p w.db.prs ≡ some row
    → (pr : PullRequest) × ((merge_pull_request e p w).0 ≡ ok pr)
      × Answer w.db p pr (merge_pull_request e p w).1.db
merge_pull_request_returns e calm p w row valid found =
    returned _ _ (merge_pull_request e p w).0 (merge_pull_request e p w).1.db
      (merge_pull_request_outcome e p w) ((merge_calm e calm p valid).at w (row, found))
