-- ===== src/Integrity/Checks.antt =====
-- The checks of texts in front of an operation of internal/service/service.go.
use pr_reviewer_service.Prelude.{String, Option, List, [], ◌∷◌}
use pr_reviewer_service.Domain.{User}
use pr_reviewer_service.Validation.{validate_user_id}
use pr_reviewer_service.Database.Schema.{Db}
use pr_reviewer_service.Repository.Monad.{M, ◌>>=◌}
use pr_reviewer_service.Repository.Triple.{Triple, Triple-pure, Triple-bind, Triple-from}
use pr_reviewer_service.Service.Basic.{check, check_ids, check_members}
use pr_reviewer_service.Integrity.Candidates.{Triple-check}

module _ {P X : Db → Type 0} (x : (d : Db) → P d → X d) where
  pub Triple-checked :
      {A : Type 0} {Q : A → Db → Type 0} (o : Option String) (m : M A)
      → Triple P m Q X
      → Triple P (check o >>= λ _. m) Q X
  Triple-checked o m h =
      Triple-bind (check o) _ (Triple-check o x) λ _. Triple-from m (λ d k. k.1) h

  pub Triple-check_members : (ms : List User) → Triple P (check_members ms) (λ _. P) X
  unfolding check_members
  Triple-check_members [] = Triple-pure tt (λ d k. k)
  Triple-check_members (m ∷ ms) = Triple-checked (validate_user_id m.id) _ (Triple-check_members ms)

  pub Triple-check_ids : (us : List String) → Triple P (check_ids us) (λ _. P) X
  unfolding check_ids
  Triple-check_ids [] = Triple-pure tt (λ d k. k)
  Triple-check_ids (u ∷ us) = Triple-checked (validate_user_id u) _ (Triple-check_ids us)
