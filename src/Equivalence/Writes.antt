-- ===== src/Equivalence/Writes.antt =====
-- The operations of `Storage` that write, against those of `txStorage` in a transaction.
use pr_reviewer_service.Prelude.{
  ℕ, String, ◌≡◌, refl, ◌∙◌, ap, Bool, true, false, not, List, [], ◌∷◌, ◌==◌, eq_refl, inl, inr,
  Bool-cases,
}
use pr_reviewer_service.Domain.{
  PrStatus, opened, merged, status_eq, PullRequest, err_pr_not_found, err_pr_exists, err_pr_merged,
  err_reviewer_absent,
}
use pr_reviewer_service.Database.Schema.{Db, find_pr}
use pr_reviewer_service.Database.Statements.{update_status, with_status}
use pr_reviewer_service.Repository.Monad.{domain, Env, M, pure, same_error, not_found, ◌>>=◌}
use pr_reviewer_service.Repository.Triple.{
  Triple, Triple-pure, Triple-bind, Triple-if, Triple-on_error, Triple-query_row, Triple-exec,
  Triple-weaken,
}
use pr_reviewer_service.Repository.Calm.{calm_query}
use pr_reviewer_service.Repository.Users
use pr_reviewer_service.Repository.PullRequests
use pr_reviewer_service.Repository.PullRequests.{
  new_row, insert_reviewers, remove_reviewer, assign_all, assign_new, stamp_merged,
  create_pull_request_body, update_pr_status_body, replace_reviewer_body, get_pull_request,
}
use pr_reviewer_service.Repository.Tx
use pr_reviewer_service.Repository.Tx.{with_transaction}
use pr_reviewer_service.Integrity.Rows.{find_pr-status_written}
use pr_reviewer_service.Effects.Growth.{Created, create_body_triple}
use pr_reviewer_service.Effects.Replace.{Succeeded, replace_body_triple}
use pr_reviewer_service.Effects.Returns.{Present, get_pull_request_calm}
use pr_reviewer_service.Equivalence.{Steady, Same}
use pr_reviewer_service.Equivalence.Rules.{
  Same-pure, Same-bind, Same-raise_if, Same-query, Same-query_row, Same-exec,
}
use pr_reviewer_service.Equivalence.Transactions.{Same-transaction, Same-single}
use pr_reviewer_service.Equivalence.Reads.{get_pull_request-Same}

Created-Present :
    (d₀ : Db) (pr : PullRequest) (rs : List String) (d : Db) → Created d₀ pr rs d → Present pr.id d
unfolding find_pr
Created-Present d₀ pr rs d h =
    (new_row pr h.time, ap (find_pr pr.id) h.prs ∙ rw (eq_refl pr.id) refl)

update_status-Present :
    (p : String) (s : PrStatus) (t : ℕ) (d : Db) → Present p d → Present p (update_status p s t d)
unfolding update_status
update_status-Present p s t d h =
    (with_status s t h.0, find_pr-status_written p p s t d.prs ∙ rw (h.1, eq_refl p) refl)

-- A body whose outcome is known from every state.
from_anywhere :
    {A : Type 0} {m : M A} {Q : A → Db → Type 0} (R : Db → A → Db → Type 0)
    → ((d : Db) → Triple (λ x. x ≡ d) m (R d) (λ x. Unit {0}))
    → ((d : Db) (a : A) (x : Db) → R d a x → Q a x)
    → Triple (λ d. Unit {0}) m Q (λ d. Unit {0})
from_anywhere R h f = record {
  at = λ w k. (Triple-weaken _ (λ a d r. f w.db a d r) (h w.db)).at w refl;
}

module _ (e : Env) (t : ℕ) (steady : Steady e t) where
  pub deactivate_users-Same :
      (ids : List String)
      → Same (Users.deactivate_users e ids) (with_transaction e (λ s. Tx.deactivate_users e s ids))
  unfolding with_transaction Users.deactivate_users Tx.deactivate_users
  deactivate_users-Same [] =
      Same-single e t steady _ _ (Same-pure []) (λ d. Triple-pure [] (λ x h. tt))
  deactivate_users-Same (i ∷ is) =
      Same-transaction e t steady (λ _ d. Unit {0}) _ _ (λ _. Same-query e t steady _)
        (λ _. calm_query e steady.calm _ (λ d h. tt)) _ _ (Same-exec e t steady _)
        (Triple-exec e (λ d h. tt) _ (λ d h. tt))

  assign_all-Same :
      (p : String) (rs : List String) (source : String)
      → Same (assign_all e t p rs source) (assign_all e t p rs source)
  unfolding assign_all insert_reviewers
  assign_all-Same p [] source = Same-pure tt
  assign_all-Same p (r ∷ rs) source = Same-exec e t steady _

  create_body-Same :
      (pr : PullRequest) (rs : List String)
      → Same (create_pull_request_body e pr rs t) (create_pull_request_body e pr rs t)
  unfolding create_pull_request_body
  create_body-Same pr rs = Same-bind _ _ _ _ (Same-query e t steady _) λ exists.
      Same-bind _ _ _ _ (Same-raise_if exists (domain err_pr_exists))
        λ _. Same-bind _ _ _ _ (Same-exec e t steady _) λ _. assign_all-Same pr.id rs "AUTO_ASSIGN"

  pub create_pull_request-Same :
      (pr : PullRequest) (rs : List String)
      → Same
          (PullRequests.create_pull_request e pr rs)
          (with_transaction e (λ s. Tx.create_pull_request e s pr rs))
  unfolding with_transaction PullRequests.create_pull_request Tx.create_pull_request
  create_pull_request-Same pr rs =
      Same-transaction e t steady (λ _. Present pr.id) _ _
        (λ _. get_pull_request-Same e t steady pr.id)
        (λ _. get_pull_request_calm e steady.calm pr.id) _ _ (create_body-Same pr rs)
        (from_anywhere (λ d _. Created d pr rs) (λ d. create_body_triple e d pr rs t)
          (λ d _ x. Created-Present d pr rs x))

  stamp_merged-Same :
      (p : String) (status : PrStatus) (settled : Bool)
      → Same (stamp_merged e t p status settled) (stamp_merged e t p status settled)
  unfolding stamp_merged
  stamp_merged-Same p status true = Same-pure tt
  stamp_merged-Same p opened false = Same-pure tt
  stamp_merged-Same p merged false = Same-exec e t steady _

  update_body-Same :
      (p : String) (status : PrStatus)
      → Same (update_pr_status_body e p status t) (update_pr_status_body e p status t)
  unfolding update_pr_status_body
  update_body-Same p status =
      Same-bind _ _ _ _ (Same-query_row e t steady err_pr_not_found same_error same_error _)
        λ row. stamp_merged-Same p status _

  stamp_merged-Present :
      (p : String) (status : PrStatus) (settled : Bool)
      → Triple (Present p) (stamp_merged e t p status settled) (λ _. Present p) (λ d. Unit {0})
  unfolding stamp_merged
  stamp_merged-Present p status settled =
      Triple-if settled _ _ (λ _. Triple-pure tt (λ d k. k))
        λ _.
          Triple-if (status_eq status merged) _ _
            (λ _. Triple-exec e (λ d k. tt) _ (λ d k. update_status-Present p status t d k))
            (λ _. Triple-pure tt (λ d k. k))

  update_body-Present :
      (p : String) (status : PrStatus)
      → Triple (λ d. Unit {0}) (update_pr_status_body e p status t) (λ _. Present p) (λ d. Unit {0})
  unfolding update_pr_status_body
  update_body-Present p status =
      Triple-bind _ _
        (Triple-on_error (not_found err_pr_not_found same_error) _ (
          Triple-query_row e (λ d k. tt) {Q = λ _. Present p} (λ d. find_pr p d.prs)
            (λ d row found k. (row, found))))
        λ row. stamp_merged-Present p status _

  pub update_pr_status-Same :
      (p : String) (status : PrStatus)
      → Same
          (PullRequests.update_pr_status e p status)
          (with_transaction e (λ s. Tx.update_pr_status e s p status))
  unfolding with_transaction PullRequests.update_pr_status Tx.update_pr_status Tx.get_pull_request
  update_pr_status-Same p status =
      Same-transaction e t steady (λ _. Present p) _ _ (λ _. get_pull_request-Same e t steady p)
        (λ _. get_pull_request_calm e steady.calm p) _ _ (update_body-Same p status)
        (update_body-Present p status)

  assign_new-Same :
      (p new source : String) → Same (assign_new e t p new source) (assign_new e t p new source)
  unfolding assign_new insert_reviewers
  assign_new-Same p new source = elim (Bool-cases (new == "")) [
    | inl nobody ↦ rw nobody (Same-pure tt)
    | inr somebody ↦ rw somebody (Same-exec e t steady _)
  ]

  replace_body-Same :
      (p old new source : String)
      → Same
          (replace_reviewer_body e p old new source t)
          (replace_reviewer_body e p old new source t)
  unfolding replace_reviewer_body remove_reviewer
  replace_body-Same p old new source =
      Same-bind _ _ _ _ (Same-query_row e t steady err_pr_not_found same_error same_error _) λ row.
        Same-bind _ _ _ _ (Same-raise_if _ (domain err_pr_merged)) λ _.
          Same-bind _ _ _ _ (Same-query e t steady _) λ found.
            Same-bind _ _ _ _ (Same-raise_if (not found) (domain err_reviewer_absent))
              λ _. Same-bind _ _ _ _ (Same-exec e t steady _) λ _. assign_new-Same p new source

  Succeeded-Present :
      (d₀ : Db) (p old new source : String) (d : Db) → Succeeded d₀ p old new source d → Present p d
  Succeeded-Present d₀ p old new source d h =
      (h.was_open.0, ap (find_pr p) h.effect.others.prs ∙ h.was_open.1)

  answer_replaced :
      (p new : String)
      → Same {A = PullRequest × String}
          (get_pull_request e p >>= λ pr. pure (pr, new))
          (Tx.get_pull_request e p >>= λ pr. pure (pr, new))
  unfolding Tx.get_pull_request
  answer_replaced p new = Same-bind _ _ _ _ (get_pull_request-Same e t steady p) λ pr. Same-pure _

  pub replace_reviewer-Same :
      (p old new source : String)
      → Same
          (PullRequests.replace_reviewer e p old new source)
          (with_transaction e (λ s. Tx.replace_reviewer e s p old new source))
  unfolding with_transaction PullRequests.replace_reviewer Tx.replace_reviewer Tx.get_pull_request
  replace_reviewer-Same p old new source =
      Same-transaction e t steady (λ _. Present p) _ _ (λ _. answer_replaced p new)
        (λ _.
          Triple-bind _ _ (get_pull_request_calm e steady.calm p) λ pr. Triple-pure _ (λ d k. tt))
        _ _ (replace_body-Same p old new source)
        (from_anywhere (λ d _. Succeeded d p old new source)
          (λ d. replace_body_triple e d t p old new source)
          (λ d _ x. Succeeded-Present d p old new source x))
