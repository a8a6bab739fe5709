-- ===== src/Repository/Triple.antt =====
-- Hoare triples for the programs of Repository/Monad.antt: what holds of the database after a
-- program that begins where `P` holds. A program with a triple does not panic.
pub mod Exits
pub use pr_reviewer_service.Repository.Triple.Exits.{After, Succeeds, After-weaken, After-both}
use pr_reviewer_service.Prelude.{ℕ, ◌≡◌, refl, Bool, true, false, Option, some, if◌then◌else◌}
use pr_reviewer_service.Database.Schema.{Db}
use pr_reviewer_service.Database.Statements.{Outcome}
use pr_reviewer_service.Repository.Monad.{
  Error, ok, Metrics, World, Env, M, pure, raise, raise_if, ◌>>=◌, on_error, update_metrics, send,
  now, to_sql, query, query_row, exec, wrap, build_query, option_result, write,
}
use pr_reviewer_service.Repository.Transaction.{with_tx, attempt}
use pr_reviewer_service.Repository.Triple.Exits.{
  After-recode, After-widen, After-option, After-continue, After-finish, After-raise_if,
  After-sending, After-write,
}

-- `Q` is what holds after a result, `X` after an error.
pub record Triple {A : Type 0} (P : Db → Type 0) (m : M A) (Q : A → Db → Type 0) (X : Db → Type 0)
    : Type 0 where
  pub at : (w : World) → P w.db → After Q X (m w).0 (m w).1.db

-- `m` keeps `I` on every way out, and does not panic.
abbrev pub Holds : (Db → Type 0) → {A : Type 0} → M A → Type 0
Holds I m = Triple I m (λ _. I) I

module _ {A : Type 0} {P : Db → Type 0} {Q : A → Db → Type 0} {X : Db → Type 0} where
  pub Triple-pure : (a : A) → ((d : Db) → P d → Q a d) → Triple P (pure a) Q X
  Triple-pure a h = record { at = λ w p. h w.db p }

  pub Triple-raise : (x : Error) → ((d : Db) → P d → X d) → Triple P (raise x) Q X
  Triple-raise x h = record { at = λ w p. h w.db p }

  pub Triple-if :
      (b : Bool) (m n : M A)
      → (b ≡ true → Triple P m Q X)
      → (b ≡ false → Triple P n Q X)
      → Triple P (if b then m else n) Q X
  Triple-if true m n h k = h refl
  Triple-if false m n h k = k refl

  pub Triple-on_error : (f : Error → Error) (m : M A) → Triple P m Q X → Triple P (on_error f m) Q X
  unfolding on_error
  Triple-on_error f m h = record { at = λ w p. After-recode Q X f (m w).0 (m w).1.db (h.at w p) }

module _ {A : Type 0} {P : Db → Type 0} (m : M A) where
  -- A weaker conclusion.
  pub Triple-weaken :
      {Q R : A → Db → Type 0} {X : Db → Type 0}
      → ((a : A) (d : Db) → Q a d → R a d)
      → Triple P m Q X
      → Triple P m R X
  Triple-weaken {Q} {R} {X} f h = record {
    at = λ w p. After-weaken Q X R (m w).0 (m w).1.db (λ a. f a (m w).1.db) (h.at w p);
  }

-- A weaker conclusion after an error.
pub Triple-widen :
    {A : Type 0} {P X Y : Db → Type 0} {Q : A → Db → Type 0} (m : M A)
    → ((d : Db) → X d → Y d)
    → Triple P m Q X
    → Triple P m Q Y
Triple-widen {X = X} {Y = Y} {Q = Q} m f h = record {
  at = λ w p. After-widen Q X Y (m w).0 (m w).1.db (f (m w).1.db) (h.at w p);
}

-- Two conclusions at once.
pub Triple-both :
    {A : Type 0} {P X Y : Db → Type 0} {Q R : A → Db → Type 0} (m : M A)
    → Triple P m Q X
    → Triple P m R Y
    → Triple P m (λ a d. Q a d × R a d) (λ d. X d × Y d)
Triple-both {X = X} {Y = Y} {Q = Q} {R = R} m f g = record {
  at = λ w p. After-both Q X R Y (m w).0 (m w).1.db (f.at w p) (g.at w p);
}

-- A precondition may carry a fact that is no matter of the database.
pub Triple-given :
    {A H : Type 0} {P X : Db → Type 0} {Q : A → Db → Type 0} (m : M A)
    → (H → Triple P m Q X)
    → Triple (λ d. H × P d) m Q X
Triple-given m f = record { at = λ w h. (f h.0).at w h.1 }

-- A stronger precondition.
pub Triple-from :
    {A : Type 0} {P R X : Db → Type 0} {Q : A → Db → Type 0} (m : M A)
    → ((d : Db) → R d → P d)
    → Triple P m Q X
    → Triple R m Q X
Triple-from m f h = record { at = λ w r. h.at w (f w.db r) }

module _ {A B : Type 0} {P X : Db → Type 0} {Q : A → Db → Type 0} {R : B → Db → Type 0} where
  pub Triple-bind :
      (m : M A) (f : A → M B)
      → Triple P m Q X
      → ((a : A) → Triple (Q a) (f a) R X)
      → Triple P (m >>= f) R X
  unfolding ◌>>=◌
  Triple-bind m f h k = record {
    at = λ w p. After-continue Q X R (m w).0 f (m w).1 (λ a. (k a).at) (h.at w p);
  }

module _ {P X : Db → Type 0} where
  -- An early return: what follows may use that the test failed.
  pub Triple-raise_when :
      {Q : Db → Type 0} (b : Bool) (x : Error)
      → ((d : Db) → b ≡ true → P d → X d)
      → ((d : Db) → b ≡ false → P d → Q d)
      → Triple P (raise_if b x) (λ _. Q) X
  Triple-raise_when {Q} b x h k = record {
    at = λ w p. After-raise_if Q X b x w.db (λ s. h w.db s p) (λ s. k w.db s p);
  }

  -- The same, where what is left does not hang on the test.
  pub Triple-raise_if :
      {Q : Db → Type 0} (b : Bool) (x : Error)
      → ((d : Db) → P d → X d)
      → ((d : Db) → b ≡ false → P d → Q d)
      → Triple P (raise_if b x) (λ _. Q) X
  Triple-raise_if b x h k = Triple-raise_when b x (λ d _. h d) k

  pub Triple-update_metrics : (f : Metrics → Metrics) → Triple P (update_metrics f) (λ _. P) X
  Triple-update_metrics f = record { at = λ w p. p }

pub Triple-now : {P X : Db → Type 0} (e : Env) → Triple P (now e) (λ _. P) X
Triple-now e = record { at = λ w p. p }

-- A call that fails leaves the database as it was, so `X` has to follow from `P`.
module _ {P X : Db → Type 0} (e : Env) (x : (d : Db) → P d → X d) where
  pub Triple-send : Triple P (send e) (λ _. P) X
  unfolding send
  Triple-send = record { at = λ w p. After-sending P X (e.fault w.sent) w.db (x w.db) p }

  pub Triple-to_sql : Triple P (to_sql e) (λ _. P) X
  unfolding to_sql
  Triple-to_sql = Triple-on_error (wrap build_query) (send e) Triple-send

  pub Triple-query :
      {A : Type 0} {Q : A → Db → Type 0} (f : Db → A)
      → ((d : Db) → P d → Q (f d) d)
      → Triple P (query e f) Q X
  unfolding query
  Triple-query f h =
      Triple-bind (send e) (λ _ w. (ok (f w.db), w)) Triple-send
        λ _. record { at = λ w p. h w.db p }

  pub Triple-query_row :
      {A : Type 0} {Q : A → Db → Type 0} (f : Db → Option A)
      → ((d : Db) (a : A) → f d ≡ some a → P d → Q a d)
      → Triple P (query_row e f) Q X
  unfolding query_row
  Triple-query_row {Q = Q} f h =
      Triple-bind (send e) (λ _ w. (option_result (f w.db), w)) Triple-send
        λ _. record {
          at = λ w p. After-option Q X (f w.db) w.db (λ a found. h w.db a found p) (x w.db p);
        }

  pub Triple-exec :
      {Q : Db → Type 0} (f : Db → Outcome)
      → ((d : Db) → P d → Succeeds Q (f d))
      → Triple P (exec e f) (λ _. Q) X
  unfolding exec
  Triple-exec {Q} f h =
      Triple-bind (send e) (λ _ w. write (f w.db) w) Triple-send
        λ _. record { at = λ w p. After-write Q X (f w.db) w (h w.db p) (x w.db p) }

-- A transaction: an error of its body leaves `P`, and one of COMMIT leaves `P` or what the body
-- has done.
module _ {A : Type 0} {P X Y : Db → Type 0} {Q : A → Db → Type 0} (e : Env) where
  pub Triple-with_tx :
      (body : ℕ → M A)
      → ((d : Db) → P d → X d)
      → ((a : A) (d : Db) → Q a d → X d)
      → ((t : ℕ) → Triple P (body t) Q Y)
      → Triple P (with_tx e body) Q X
  unfolding with_tx ◌>>=◌
  Triple-with_tx body x y h =
      Triple-bind (send e) (λ _. attempt e body) (Triple-send e x)
        λ _. record {
          at = λ w p.
              let t = e.clock w.sent in
              After-finish Q X Y e w.db (body t w).0 (body t w).1 (λ a. y a (body t w).1.db)
                (x w.db p) ((h t).at w p);
        }
