-- ===== src/Equivalence/Transactions.antt =====
-- Operations inside a transaction, against operations that open their own.
use pr_reviewer_service.Prelude.{suc, ℕ, ◌≡◌, refl, ◌∙◌}
use pr_reviewer_service.Database.Schema.{Db}
use pr_reviewer_service.Repository.Monad.{
  Result, ok, err, panic, World, Env, M, continue, ◌>>=◌, send,
}
use pr_reviewer_service.Repository.Transaction.{with_tx, finish}
use pr_reviewer_service.Repository.Triple.{After, Triple}
use pr_reviewer_service.Repository.Calm.{Never}
use pr_reviewer_service.Equivalence.{Steady, Agree, Same}

module _ (e : Env) (t : ℕ) (steady : Steady e t) where
  -- COMMIT answers, and changes nothing.
  committed_lem :
      {A : Type 0} (before : Db) (rl : Result A) (dl : Db) (r : Result A) (w : World)
      → Agree rl dl r w.db
      → After (λ _ _. Unit {0}) Never r w.db
      → Agree rl dl (finish e before r w).0 (finish e before r w).1.db
  committed_lem before rl dl (ok a) w h k = rw (steady.calm w.sent) h
  committed_lem before rl dl (err x) w h k = absurd k
  committed_lem before rl dl panic w h k = absurd k

  module _ {A B : Type 0} (Q : A → Db → Type 0) (g g' : A → M B)
      (rest : (a : A) → Same (g a) (g' a))
      (reads : (a : A) → Triple (Q a) (g' a) (λ _ _. Unit {0}) Never) where
    transaction_lem :
        (before before' : Db) (r r' : Result A) (w w' : World)
        → before ≡ before'
        → Agree r w.db r' w'.db
        → After Q (λ _. Unit {0}) r' w'.db
        → let (l, v) = finish e before r w in
          let (m, u) = continue r' g' w' in
          let out = finish e before' m u in
          Agree (continue l g v).0 (continue l g v).1.db out.0 out.1.db
    transaction_lem before before' (ok a) (ok b) w w' start h q =
        let v : World = record w { sent = suc w.sent } in
        let same : Agree (g a v).0 (g a v).1.db (g' b w').0 (g' b w').1.db =
          rw h.0 ((rest b).at v w' h.1) in
        rw (steady.calm w.sent) (
          committed_lem before' (g a v).0 (g a v).1.db (g' b w').0 (g' b w').1 same
            ((reads b).at w' q))
    transaction_lem before before' (err x) (err y) w w' start h q = (h.0, start)
    transaction_lem before before' panic panic w w' start h q = absurd q
    transaction_lem before before' (ok a) (err y) w w' start h q = absurd h
    transaction_lem before before' (ok a) panic w w' start h q = absurd h
    transaction_lem before before' (err x) (ok b) w w' start h q = absurd h
    transaction_lem before before' (err x) panic w w' start h q = absurd h
    transaction_lem before before' panic (ok b) w w' start h q = absurd h
    transaction_lem before before' panic (err y) w w' start h q = absurd h

    -- What is read after a transaction may be read at its end, if reading cannot fail there.
    pub Same-transaction :
        (b b' : ℕ → M A)
        → Same (b t) (b' t)
        → Triple (λ d. Unit {0}) (b' t) Q (λ d. Unit {0})
        → Same (with_tx e b >>= g) (with_tx e (λ s. b' s >>= g'))
    unfolding with_tx send ◌>>=◌
    Same-transaction b b' same left = record {
      at = λ w w' start.
          let v : World = record w { sent = suc w.sent } in
          let v' : World = record w' { sent = suc w'.sent } in
          rw (steady.calm w.sent, steady.calm w'.sent, steady.time v.sent, steady.time v'.sent)
            (transaction_lem w.db w'.db (b t v).0 (b' t v').0 (b t v).1 (b' t v').1 start
              (same.at v v' start) (left.at v' tt));
    }

  module _ {A : Type 0} where
    single_lem :
        (before' : Db) (d : Db) (r r' : Result A) (w w' : World)
        → d ≡ before'
        → Agree r w.db r' w'.db
        → After (λ _ _. Unit {0}) (λ x. x ≡ d) r w.db
        → let out = finish e before' r' w' in Agree r w.db out.0 out.1.db
    single_lem before' d (ok a) (ok b) w w' start h q = rw (steady.calm w'.sent) h
    single_lem before' d (err x) (err y) w w' start h q = (h.0, q ∙ start)
    single_lem before' d panic panic w w' start h q = absurd q
    single_lem before' d (ok a) (err y) w w' start h q = absurd h
    single_lem before' d (ok a) panic w w' start h q = absurd h
    single_lem before' d (err x) (ok b) w w' start h q = absurd h
    single_lem before' d (err x) panic w w' start h q = absurd h
    single_lem before' d panic (ok b) w w' start h q = absurd h
    single_lem before' d panic (err y) w w' start h q = absurd h

    -- An operation that writes nothing where it fails needs no transaction.
    pub Same-single :
        (m : M A) (n : ℕ → M A)
        → Same m (n t)
        → ((d : Db) → Triple (λ x. x ≡ d) m (λ _ _. Unit {0}) (λ x. x ≡ d))
        → Same m (with_tx e n)
    unfolding with_tx send ◌>>=◌
    Same-single m n same keeps = record {
      at = λ w w' start.
          let v' : World = record w' { sent = suc w'.sent } in
          rw (steady.calm w'.sent, steady.time v'.sent)
            (single_lem w'.db w.db (m w).0 (n t v').0 (m w).1 (n t v').1 start (same.at w v' start)
              ((keeps w.db).at w refl));
    }
