-- ===== src/Repository/Triple/Exits.antt =====
-- What holds where a program has ended, for each way in which Repository/Monad.antt builds one.
use pr_reviewer_service.Prelude.{
  suc, ℕ, ◌≡◌, refl, Bool, true, false, Option, none, some, if◌then◌else◌,
}
use pr_reviewer_service.Database.Schema.{Db}
use pr_reviewer_service.Database.Statements.{Outcome, done, refused}
use pr_reviewer_service.Repository.Monad.{
  Error, Result, ok, err, panic, World, Env, M, continue, recode_result, sending, option_result,
  write,
}
use pr_reviewer_service.Repository.Transaction.{finish, committed, rollback}

abbrev pub After : {A : Type 0} → (A → Db → Type 0) → (Db → Type 0) → Result A → Db → Type 0
After Q X (ok a) d = Q a d
After Q X (err x) d = X d
After Q X panic d = ⊥

-- What holds of the new state where a write is carried out.
abbrev pub Succeeds : (Db → Type 0) → Outcome → Type 0
Succeeds Q (done d) = Q d
Succeeds Q (refused x) = Unit

-- The cases of a result, one lemma for each way to build a program.
module _ {A : Type 0} (Q : A → Db → Type 0) (X : Db → Type 0) where
  pub After-recode :
      (f : Error → Error) (r : Result A) (d : Db) → After Q X r d → After Q X (recode_result f r) d
  After-recode f (ok a) d h = h
  After-recode f (err x) d h = h
  After-recode f panic d h = h

  pub After-weaken :
      (R : A → Db → Type 0) (r : Result A) (d : Db)
      → ((a : A) → Q a d → R a d)
      → After Q X r d
      → After R X r d
  After-weaken R (ok a) d f h = f a h
  After-weaken R (err x) d f h = h
  After-weaken R panic d f h = h

  pub After-both :
      (R : A → Db → Type 0) (Y : Db → Type 0) (r : Result A) (d : Db)
      → After Q X r d
      → After R Y r d
      → After (λ a d. Q a d × R a d) (λ d. X d × Y d) r d
  After-both R Y (ok a) d h k = (h, k)
  After-both R Y (err x) d h k = (h, k)
  After-both R Y panic d h k = h

  pub After-widen :
      (Y : Db → Type 0) (r : Result A) (d : Db) → (X d → Y d) → After Q X r d → After Q Y r d
  After-widen Y (ok a) d f h = h
  After-widen Y (err x) d f h = f h
  After-widen Y panic d f h = h

  pub After-option :
      (o : Option A) (d : Db) → ((a : A) → o ≡ some a → Q a d) → X d → After Q X (option_result o) d
  After-option none d h y = y
  After-option (some a) d h y = h a refl

  pub After-continue :
      {B : Type 0} (R : B → Db → Type 0) (r : Result A) (f : A → M B) (w : World)
      → ((a : A) (w : World) → Q a w.db → After R X (f a w).0 (f a w).1.db)
      → After Q X r w.db
      → After R X (continue r f w).0 (continue r f w).1.db
  After-continue R (ok a) f w k h = k a w h
  After-continue R (err x) f w k h = h
  After-continue R panic f w k h = h

  pub After-committed :
      (e : Env) (a : A) (before : Db) (o : Option ℕ) (w : World)
      → X before
      → Q a w.db
      → X w.db
      → After Q X (committed e a before o w).0 (committed e a before o w).1.db
  After-committed e a before none w x q y = q
  After-committed e a before (some c) w x q y = landed (e.lands w.sent)
    where
      landed : (b : Bool) → X (if b then w else rollback before w).db
      landed true = y
      landed false = x

  pub After-finish :
      (Y : Db → Type 0) (e : Env) (before : Db) (r : Result A) (w : World)
      → ((a : A) → Q a w.db → X w.db)
      → X before
      → After Q Y r w.db
      → After Q X (finish e before r w).0 (finish e before r w).1.db
  After-finish Y e before (ok a) w y x h =
      After-committed e a before (e.fault w.sent) (record w { sent = suc w.sent }) x h (y a h)
  After-finish Y e before (err c) w y x h = x
  After-finish Y e before panic w y x h = h

module _ (Q : Db → Type 0) (X : Db → Type 0) where
  pub After-raise_if :
      (b : Bool) (x : Error) (d : Db)
      → (b ≡ true → X d)
      → (b ≡ false → Q d)
      → After (λ (_ : Unit {0}). Q) X (if b then err x else ok tt) d
  After-raise_if true x d h k = h refl
  After-raise_if false x d h k = k refl

  pub After-sending : (o : Option ℕ) (d : Db) → (Q d → X d) → Q d → After (λ _. Q) X (sending o) d
  After-sending none d x p = p
  After-sending (some c) d x p = x p

  pub After-write :
      (o : Outcome) (w : World)
      → Succeeds Q o
      → X w.db
      → After (λ (_ : Unit {0}). Q) X (write o w).0 (write o w).1.db
  After-write (done d) w h y = h
  After-write (refused c) w h y = y
