-- ===== src/Equivalence/Teams.antt =====
-- `CreateTeam` of `Storage` against that of `txStorage` in a transaction.
use mathlib.Core.Path.{fun_ext}
use pr_reviewer_service.Prelude.{
  ℕ, String, ◌≡◌, refl, sym, ◌∙◌, ap, true, not, List, [], ◌∷◌, arith, eq_refl, any_of, Bool-cases,
  inl, inr,
}
use pr_reviewer_service.Domain.{User, Team, err_team_exists, err_team_not_found}
use pr_reviewer_service.Database.Schema.{UserRow, Db, has_team}
use pr_reviewer_service.Database.Statements.{insert_team, upsert_user}
use pr_reviewer_service.Repository.Monad.{
  execute_query, domain, Result, ok, err, panic, World, Env, M, raise_if, query, exec, continue,
  ◌>>=◌, ◌>>◌,
}
use pr_reviewer_service.Repository.Triple.{
  Succeeds, Triple, Triple-pure, Triple-bind, Triple-raise_if, Triple-raise_when, Triple-query,
  Triple-exec, Triple-given,
}
use pr_reviewer_service.Repository.Calm.{Never, calm_query}
use pr_reviewer_service.Repository.Teams
use pr_reviewer_service.Repository.Teams.{member_row}
use pr_reviewer_service.Repository.Tx
use pr_reviewer_service.Repository.Tx.{with_transaction}
use pr_reviewer_service.Equivalence.{Steady, Same}
use pr_reviewer_service.Equivalence.Rules.{
  Same-pure, Same-bind, Same-wrap, Same-raise_if, Same-to_sql, Same-now, Same-query, Same-exec,
}
use pr_reviewer_service.Equivalence.Reads.{get_team-Same}
use pr_reviewer_service.Equivalence.Transactions.{Same-transaction}

continue_assoc :
    {A B C : Type 0} (f : A → M B) (g : B → M C) (r : Result A) (w : World)
    → continue (continue r f w).0 g (continue r f w).1
      ≡ continue r (λ a u. continue (f a u).0 g (f a u).1) w
continue_assoc f g (ok a) w = refl
continue_assoc f g (err x) w = refl
continue_assoc f g panic w = refl

bind_assoc :
    {A B C : Type 0} (m : M A) (f : A → M B) (g : B → M C)
    → (m >>= f) >>= g ≡ m >>= (λ a. f a >>= g)
unfolding ◌>>=◌
bind_assoc m f g = fun_ext λ w. continue_assoc f g (m w).0 (m w).1

abbrev HasTeam : String → Db → Type 0
HasTeam name d = has_team name d.teams ≡ true

insert-HasTeam : (s : ℕ) (name : String) (d : Db) → Succeeds (HasTeam name) (insert_team s name d)
unfolding insert_team has_team any_of
insert-HasTeam s name d = elim (Bool-cases (has_team name d.teams)) [
  | inl there ↦ rw there tt
  | inr fresh ↦ rw fresh (rw (eq_refl name) refl)
]

upsert-HasTeam :
    (name : String) (row : UserRow) (d : Db)
    → HasTeam name d
    → Succeeds (HasTeam name) (upsert_user row d)
unfolding upsert_user
upsert-HasTeam name row d h = elim (Bool-cases (has_team row.team_name d.teams)) [
  | inl there ↦ rw there h
  | inr missing ↦ rw missing tt
]

module _ (e : Env) where
  -- `CreateTeam` up to the reading of the team.
  abbrev tx_body : Team → ℕ → M (Unit {0})
  tx_body team s = query e (λ d. has_team team.name d.teams) >>= λ exists.
      (raise_if exists (domain err_team_exists)
        >> (exec e (insert_team s team.name) >> Tx.upsert_members e team.name s team.members))

  abbrev body_and_read : Team → ℕ → M Team
  body_and_read team s = tx_body team s >>= λ _. Tx.get_team e team.name

  abbrev created : Team → ℕ → M Team
  created team s = Tx.create_team e s team

  tx_body_lem : (team : Team) → body_and_read team ≡ created team
  unfolding Tx.create_team
  tx_body_lem team = fun_ext λ s.
      bind_assoc _ _ _
      ∙ ap (λ k. query e (λ d. has_team team.name d.teams) >>= k)
          (fun_ext λ exists.
            bind_assoc _ _ _
            ∙ ap (λ k. raise_if exists (domain err_team_exists) >>= k)
                (fun_ext λ _. bind_assoc _ _ _))

  upsert_members-HasTeam :
      (name : String) (s : ℕ) (ms : List User)
      → Triple (HasTeam name) (Tx.upsert_members e name s ms) (λ _. HasTeam name) (λ d. Unit {0})
  unfolding Tx.upsert_members
  upsert_members-HasTeam name s [] = Triple-pure tt (λ d h. h)
  upsert_members-HasTeam name s (m ∷ ms) =
      Triple-bind _ _
        (Triple-exec e (λ d h. tt) {Q = HasTeam name} _ (upsert-HasTeam name (member_row name s m)))
        λ _. upsert_members-HasTeam name s ms

  tx_body-HasTeam :
      (team : Team) (s : ℕ)
      → Triple (λ d. Unit {0}) (tx_body team s) (λ _. HasTeam team.name) (λ d. Unit {0})
  tx_body-HasTeam team s =
      Triple-bind _ _ (Triple-query e (λ d h. tt) {Q = λ _ d. Unit {0}} _ (λ d h. tt)) λ exists.
        Triple-bind _ _
          (Triple-raise_if {Q = λ d. Unit {0}} exists (domain err_team_exists) (λ d h. tt)
            (λ d no h. tt))
          λ _.
            Triple-bind _ _
              (Triple-exec e (λ d h. tt) {Q = HasTeam team.name} _
                (λ d h. insert-HasTeam s team.name d))
              λ _. upsert_members-HasTeam team.name s team.members

  module _ (t : ℕ) (steady : Steady e t) where
    upsert_members-Same :
        (name : String) (ms : List User)
        → Same (Teams.upsert_members e name t ms) (Tx.upsert_members e name t ms)
    unfolding Teams.upsert_members Tx.upsert_members
    upsert_members-Same name [] = Same-pure tt
    upsert_members-Same name (m ∷ ms) = Same-to_sql e t steady _ _ (
        Same-bind _ _ _ _ (Same-wrap execute_query _ _ (Same-exec e t steady _))
          λ _. upsert_members-Same name ms)

    create_team_body-Same : (team : Team) → Same (Teams.create_team_body e team t) (tx_body team t)
    unfolding Teams.create_team_body
    create_team_body-Same team = Same-to_sql e t steady _ _ (
        Same-bind _ _ _ _ (Same-wrap execute_query _ _ (Same-query e t steady _)) λ exists.
          Same-bind _ _ _ _ (Same-raise_if exists (domain err_team_exists)) λ _.
            Same-to_sql e t steady _ _ (
              Same-bind _ _ _ _ (Same-wrap execute_query _ _ (Same-exec e t steady _))
                λ _. Same-now e t steady _ _ (upsert_members-Same team.name team.members)))

    check_team_calm :
        (name : String) (ms : List User)
        → Triple (HasTeam name) (Tx.check_team e name ms) (λ _ _. Unit {0}) Never
    unfolding Tx.check_team
    check_team_calm name [] =
        Triple-bind _ _
          (calm_query e steady.calm {Q = λ b d. (b ≡ true) × Unit {0}} _ (λ d h. (h, tt)))
          λ found. Triple-given _ λ there.
            Triple-raise_when (not found) (domain err_team_not_found)
              (λ d absent h. absurd (ground (arith, absent, there))) (λ d no h. tt)
    check_team_calm name (m ∷ ms) = Triple-pure tt (λ d h. tt)

    get_team_calm :
        (name : String) → Triple (HasTeam name) (Tx.get_team e name) (λ _ _. Unit {0}) Never
    unfolding Tx.get_team
    get_team_calm name =
        Triple-bind _ _ (calm_query e steady.calm {Q = λ _. HasTeam name} _ (λ d h. h))
          λ ms. Triple-bind _ _ (check_team_calm name ms) λ _. Triple-pure _ (λ d h. tt)

    pub create_team-Same :
        (team : Team)
        → Same (Teams.create_team e team) (with_transaction e (λ s. Tx.create_team e s team))
    unfolding with_transaction Teams.create_team
    create_team-Same team = rw (sym (tx_body_lem team)) (
        Same-transaction e t steady (λ _. HasTeam team.name) _ _
          (λ _. get_team-Same e t steady team.name) (λ _. get_team_calm team.name) _ _
          (create_team_body-Same team) (tx_body-HasTeam team t))
