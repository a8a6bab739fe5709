-- ===== src/Repository/Transaction/Laws.antt =====
-- What `Storage.WithTx` leaves of its body.
use pr_reviewer_service.Prelude.{
  ℕ, suc, ◌≡◌, refl, ◌⊎◌, inl, inr, Bool, true, false, Option, none, some, arith,
}
use pr_reviewer_service.Database.Schema.{Db}
use pr_reviewer_service.Repository.Monad.{
  Error, Result, ok, err, panic, World, Env, M, send, sending, continue,
}
use pr_reviewer_service.Repository.Transaction.{with_tx, attempt, finish, committed}

-- The body as the transaction runs it: after BEGIN, and with the time of the transaction.
abbrev pub body_run : {A : Type 0} → Env → (ℕ → M A) → World → Result A × World
body_run e body w = body (e.clock (suc w.sent)) (record w { sent = suc w.sent })

-- The outcome `out` of a transaction that began at `before` and whose body ended as `inner`.
pub record AllOrNothing {A : Type 0} (before : Db) (inner out : Result A × World) : Type 0 where
  -- The database holds all that the body has written, or nothing of it.
  pub whole : (out.1.db ≡ before) ⊎ (((a : A) × (inner.0 ≡ ok a)) × (out.1.db ≡ inner.1.db))
  -- A result is the body's, and all that the body has written is there.
  pub committed : (a : A) → out.0 ≡ ok a → (inner.0 ≡ ok a) × (out.1.db ≡ inner.1.db)
  -- A failing body has written nothing.
  pub rolled_back : (x : Error) → inner.0 ≡ err x → out.1.db ≡ before
  -- A panic goes on, and has written nothing.
  pub unwound : inner.0 ≡ panic → out.1.db ≡ before

module _ {A : Type 0} (e : Env) (before : Db) where
  committed_whole :
      (a : A) (o : Option ℕ) (landed : Bool) (w w' : World)
      → w'.db ≡ w.db
      → e.lands w'.sent ≡ landed
      → AllOrNothing before (ok a, w) (committed e a before o w')
  committed_whole a none landed w w' same l = record {
    whole = inr ((a, refl), same);
    committed = λ b h. (h, same);
    rolled_back = λ x h. ground arith;
    unwound = λ h. ground arith;
  }
  committed_whole a (some c) true w w' same l = rw l (record {
    whole = inr ((a, refl), same);
    committed = λ b h. ground arith;
    rolled_back = λ x h. ground arith;
    unwound = λ h. ground arith;
  })
  committed_whole a (some c) false w w' same l = rw l (record {
    whole = inl refl;
    committed = λ b h. ground arith;
    rolled_back = λ x h. ground arith;
    unwound = λ h. ground arith;
  })

  finish_whole : (r : Result A) (w : World) → AllOrNothing before (r, w) (finish e before r w)
  finish_whole (ok a) w =
      committed_whole a (e.fault w.sent) (e.lands (suc w.sent)) w (record w { sent = suc w.sent })
        refl refl
  finish_whole (err x) w = record {
    whole = inl refl;
    committed = λ a h. ground arith;
    rolled_back = λ y h. refl;
    unwound = λ h. refl;
  }
  finish_whole panic w = record {
    whole = inl refl;
    committed = λ a h. ground arith;
    rolled_back = λ y h. refl;
    unwound = λ h. refl;
  }

-- For every body and every failure of the database, at BEGIN, in the body or at COMMIT: after
-- `WithTx` the database holds all that the body has written or is as it was before; a result is the
-- body's, with all that it has written; after an error or a panic of the body nothing is written.
pub with_tx-AllOrNothing :
    {A : Type 0} (e : Env) (body : ℕ → M A) (w : World)
    → AllOrNothing w.db (body_run e body w) (with_tx e body w)
unfolding with_tx send
with_tx-AllOrNothing e body w = begun (e.fault w.sent)
  where
    begun :
        (o : Option ℕ)
        → AllOrNothing w.db
            (body_run e body w)
            (continue (sending o) (λ _. attempt e body) (record w { sent = suc w.sent }))
    begun none = finish_whole e w.db (body_run e body w).0 (body_run e body w).1
    begun (some c) = record {
      whole = inl refl;
      committed = λ a h. ground arith;
      rolled_back = λ y h. refl;
      unwound = λ h. refl;
    }
