-- ===== src/Equivalence/Rules.antt =====
-- Rules for programs that do the same.
use pr_reviewer_service.Prelude.{
  suc, ℕ, ◌≡◌, refl, sym, ◌∙◌, ap, Bool, true, false, Option, none, some,
}
use pr_reviewer_service.Domain.{DomainError}
use pr_reviewer_service.Database.Schema.{Db}
use pr_reviewer_service.Database.Statements.{no_rows, Outcome, done, refused}
use pr_reviewer_service.Repository.Monad.{
  RepoError, Error, domain, invalid, http, sql, wrapped, Result, ok, err, panic, World, Env, M,
  pure, raise_if, continue, ◌>>=◌, on_error, recode_result, wrap, not_found, send, now, to_sql,
  query, query_row, exec, option_result, write,
}
use pr_reviewer_service.Equivalence.{Steady, domain_of, Agree, Same}

domain_of-wrap : (kind : RepoError) (x : Error) → domain_of (wrap kind x) ≡ domain_of x
domain_of-wrap kind (domain x) = refl
domain_of-wrap kind (invalid text) = refl
domain_of-wrap kind (http status code text) = refl
domain_of-wrap kind (sql x) = refl
domain_of-wrap kind (wrapped k x) = refl

module _ {A : Type 0} where
  Agree-wrap :
      (kind : RepoError) (r r' : Result A) (d d' : Db)
      → Agree r d r' d'
      → Agree (recode_result (wrap kind) r) d r' d'
  Agree-wrap kind (ok a) (ok b) d d' h = h
  Agree-wrap kind (err x) (err y) d d' h = (domain_of-wrap kind x ∙ h.0, h.1)
  Agree-wrap kind panic panic d d' h = h
  Agree-wrap kind (ok a) (err y) d d' h = absurd h
  Agree-wrap kind (ok a) panic d d' h = absurd h
  Agree-wrap kind (err x) (ok b) d d' h = absurd h
  Agree-wrap kind (err x) panic d d' h = absurd h
  Agree-wrap kind panic (ok b) d d' h = absurd h
  Agree-wrap kind panic (err y) d d' h = absurd h

  Agree-continue :
      {B : Type 0} (f g : A → M B) (r r' : Result A) (w w' : World)
      → ((a : A) → Same (f a) (g a))
      → Agree r w.db r' w'.db
      → Agree (continue r f w).0 (continue r f w).1.db (continue r' g w').0 (continue r' g w').1.db
  Agree-continue f g (ok a) (ok b) w w' k h = rw (sym h.0) ((k a).at w w' h.1)
  Agree-continue f g (err x) (err y) w w' k h = h
  Agree-continue f g panic panic w w' k h = h
  Agree-continue f g (ok a) (err y) w w' k h = absurd h
  Agree-continue f g (ok a) panic w w' k h = absurd h
  Agree-continue f g (err x) (ok b) w w' k h = absurd h
  Agree-continue f g (err x) panic w w' k h = absurd h
  Agree-continue f g panic (ok b) w w' k h = absurd h
  Agree-continue f g panic (err y) w w' k h = absurd h

  pub Same-pure : (a : A) → Same (pure a) (pure a)
  Same-pure a = record { at = λ w w' h. (refl, h) }

  pub Same-pure_eq : (a b : A) → a ≡ b → Same (pure a) (pure b)
  Same-pure_eq a b k = record { at = λ w w' h. (k, h) }

  pub Same-bind :
      {B : Type 0} (m n : M A) (f g : A → M B)
      → Same m n
      → ((a : A) → Same (f a) (g a))
      → Same (m >>= f) (n >>= g)
  unfolding ◌>>=◌
  Same-bind m n f g h k = record {
    at = λ w w' same. Agree-continue f g (m w).0 (n w').0 (m w).1 (n w').1 k (h.at w w' same);
  }

  -- The errors of `Storage` are wrapped, those of `txStorage` are not.
  pub Same-wrap : (kind : RepoError) (m n : M A) → Same m n → Same (on_error (wrap kind) m) n
  unfolding on_error
  Same-wrap kind m n h = record {
    at = λ w w' same. Agree-wrap kind (m w).0 (n w').0 (m w).1.db (n w').1.db (h.at w w' same);
  }

pub Same-raise_if : (b : Bool) (x : Error) → Same (raise_if b x) (raise_if b x)
Same-raise_if true x = record { at = λ w w' h. (refl, h) }
Same-raise_if false x = record { at = λ w w' h. (refl, h) }

module _ (e : Env) (t : ℕ) (steady : Steady e t) where
  Same-send : Same (send e) (send e)
  unfolding send
  Same-send = record { at = λ w w' same. rw (steady.calm w.sent, steady.calm w'.sent) (refl, same) }

  -- Building a statement does not fail.
  pub Same-to_sql : {A : Type 0} (m n : M A) → Same m n → Same (to_sql e >>= λ _. m) n
  unfolding to_sql on_error send ◌>>=◌
  Same-to_sql m n h = record {
    at = λ w w' same. rw (steady.calm w.sent) (h.at (record w { sent = suc w.sent }) w' same);
  }

  pub Same-now : {A : Type 0} (f : ℕ → M A) (n : M A) → Same (f t) n → Same (now e >>= f) n
  unfolding ◌>>=◌
  Same-now f n h = record { at = λ w w' same. rw (steady.time w.sent) (h.at w w' same) }

  pub Same-query : {A : Type 0} (f : Db → A) → Same (query e f) (query e f)
  unfolding query
  Same-query f =
      Same-bind (send e) (send e) _ _ Same-send λ _. record { at = λ w w' h. (ap f h, h) }

  Agree-option :
      {A : Type 0} (h h' : Error → Error) (o : Option A) (d d' : Db)
      → domain_of (h (sql no_rows)) ≡ domain_of (h' (sql no_rows))
      → d ≡ d'
      → Agree (recode_result h (option_result o)) d (recode_result h' (option_result o)) d'
  Agree-option h h' none d d' k same = (k, same)
  Agree-option h h' (some a) d d' k same = (refl, same)

  -- A row that is not there is the same error of the domain, however other errors are handled.
  pub Same-query_row :
      {A : Type 0} (missing : DomainError) (f g : Error → Error) (o : Db → Option A)
      → Same
          (on_error (not_found missing f) (query_row e o))
          (on_error (not_found missing g) (query_row e o))
  unfolding on_error query_row send ◌>>=◌
  Same-query_row missing f g o = record {
    at = λ w w' same.
        rw (steady.calm w.sent, steady.calm w'.sent, same)
          (Agree-option (not_found missing f) (not_found missing g) (o w'.db) w'.db w'.db refl
            refl);
  }

  Agree-write :
      (o o' : Outcome) (w w' : World)
      → o ≡ o'
      → w.db ≡ w'.db
      → Agree (write o w).0 (write o w).1.db (write o' w').0 (write o' w').1.db
  Agree-write (done d) o' w w' k same = rw (sym k) (refl, refl)
  Agree-write (refused x) o' w w' k same = rw (sym k) (refl, same)

  pub Same-exec : (f : Db → Outcome) → Same (exec e f) (exec e f)
  unfolding exec
  Same-exec f =
      Same-bind (send e) (send e) _ _ Same-send
        λ _. record { at = λ w w' h. Agree-write (f w.db) (f w'.db) w w' (ap f h) h }
