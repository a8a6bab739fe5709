-- ===== src/Repository/Calm.antt =====
-- The rules of Repository/Triple.antt where no call to the driver fails: a program with such a
-- triple returns a result.
use pr_reviewer_service.Prelude.{ℕ, ◌≡◌, Option, none, some}
use pr_reviewer_service.Database.Schema.{Db}
use pr_reviewer_service.Database.Statements.{Outcome, done}
use pr_reviewer_service.Repository.Monad.{
  Result, ok, err, panic, World, Env, M, send, query, query_row, exec, option_result, write, ◌>>=◌,
}
use pr_reviewer_service.Repository.Transaction.{with_tx, attempt, finish}
use pr_reviewer_service.Repository.Triple.{After, Triple, Triple-bind}

-- No result is an error.
abbrev pub Never : Db → Type 0
Never d = ⊥

module _ (e : Env) (calm : (n : ℕ) → e.fault n ≡ none) where
  pub calm_send : {P : Db → Type 0} → Triple P (send e) (λ _. P) Never
  unfolding send
  calm_send = record { at = λ w p. rw (calm w.sent) p }

  pub calm_query :
      {A : Type 0} {P : Db → Type 0} {Q : A → Db → Type 0} (f : Db → A)
      → ((d : Db) → P d → Q (f d) d)
      → Triple P (query e f) Q Never
  unfolding query
  calm_query f h =
      Triple-bind (send e) (λ _ w. (ok (f w.db), w)) calm_send λ _. record { at = λ w p. h w.db p }

  pub calm_query_row :
      {A : Type 0} {P : Db → Type 0} {Q : A → Db → Type 0} (f : Db → Option A)
      → ((d : Db) → P d → (a : A) × (f d ≡ some a) × Q a d)
      → Triple P (query_row e f) Q Never
  unfolding query_row
  calm_query_row f h =
      Triple-bind (send e) (λ _ w. (option_result (f w.db), w)) calm_send
        λ _. record { at = λ w p. let (a, found, q) = h w.db p in rw found q }

  pub calm_exec :
      {P Q : Db → Type 0} (f : Db → Outcome)
      → ((d : Db) → P d → (d' : Db) × (f d ≡ done d') × Q d')
      → Triple P (exec e f) (λ _. Q) Never
  unfolding exec
  calm_exec f h =
      Triple-bind (send e) (λ _ w. write (f w.db) w) calm_send
        λ _. record { at = λ w p. let (d', wrote, q) = h w.db p in rw wrote q }

  calm_finish :
      {A : Type 0} (Q : A → Db → Type 0) (before : Db) (r : Result A) (w : World)
      → After Q Never r w.db
      → After Q Never (finish e before r w).0 (finish e before r w).1.db
  calm_finish Q before (ok a) w h = rw (calm w.sent) h
  calm_finish Q before (err x) w h = absurd h
  calm_finish Q before panic w h = absurd h

  pub calm_with_tx :
      {A : Type 0} {P : Db → Type 0} {Q : A → Db → Type 0} (body : ℕ → M A)
      → ((t : ℕ) → Triple P (body t) Q Never)
      → Triple P (with_tx e body) Q Never
  unfolding with_tx ◌>>=◌
  calm_with_tx {Q = Q} body h =
      Triple-bind (send e) (λ _. attempt e body) calm_send
        λ _. record {
          at = λ w p.
              let t = e.clock w.sent in calm_finish Q w.db (body t w).0 (body t w).1 ((h t).at w p);
        }
