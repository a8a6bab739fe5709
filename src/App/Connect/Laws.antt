-- ===== src/App/Connect/Laws.antt =====
-- What `connectWithRetry` settles on, and how long it may take.
use pr_reviewer_service.Prelude.{
  ℕ, suc, ◌+◌, ◌*◌, ◌≤◌, ◌≡◌, refl, String, Option, none, some, List, [], ◌∷◌, ◌⊎◌, inl, inr,
  length, arith,
}
use pr_reviewer_service.Config.{Config}
use pr_reviewer_service.App.Connect.{
  PoolConfig, Connection, connected, cancelled, not_connected, Effort, backoff, attempt,
  interrupted, settle, retry, connect_with_retry,
}

-- The first event that decides, else `a`.
abbrev pub first_or : {A : Type 0} → A → List (Option A) → A
first_or a [] = a
first_or a (some x ∷ xs) = x
first_or a (none ∷ xs) = first_or a xs

abbrev pub total : List ℕ → ℕ
total [] = 0
total (n ∷ ns) = n + total ns

module _ {E Pool : Type 0} where
  -- What an attempt, and the wait before it, decide.
  abbrev pub tried : E ⊎ Pool → Option (Connection E Pool)
  tried (inl x) = none
  tried (inr pool) = some (connected pool)

  abbrev pub stopped : Option E → Option (Connection E Pool)
  stopped none = none
  stopped (some x) = some (cancelled x)

  abbrev pub error_of : E ⊎ Pool → Option E
  error_of (inl x) = some x
  error_of (inr pool) = none

module _ {E Pool : Type 0} (c : Config) (parse_config : ℕ → String → E ⊎ PoolConfig)
    (new_with_config : ℕ → PoolConfig → E ⊎ Pool) (done : ℕ → Option E) where
  abbrev try : ℕ → E ⊎ Pool
  try = attempt c parse_config new_with_config done

  abbrev loop : ℕ → Option E → List ℕ → Effort → Connection E Pool × Effort
  loop = retry c parse_config new_with_config done

  abbrev events : ℕ → List ℕ → List (Option (Connection E Pool))
  events n [] = []
  events n (d ∷ ds) =
      stopped (interrupted c parse_config new_with_config done n d)
      ∷ tried (try n)
      ∷ events (suc n) ds

  abbrev last_error : ℕ → Option E → List ℕ → Option E
  last_error n last [] = last
  last_error n last (d ∷ ds) = last_error (suc n) (error_of (try n)) ds

  retry-events :
      (n : ℕ) (last : Option E) (ds : List ℕ) (t : Effort)
      → (loop n last ds t).0 ≡ first_or (not_connected (last_error n last ds)) (events n ds)
  unfolding retry
  retry-events n last [] t = refl
  retry-events n last (d ∷ ds) t =
      step (interrupted c parse_config new_with_config done n d) (try n) _ _ _ λ x.
        retry-events (suc n) (some x) ds
          (record { attempts = suc t.attempts; waited = t.waited + d })
    where
      step :
          (o : Option E) (a : E ⊎ Pool) (t t' : Effort) (k : E → Connection E Pool × Effort)
          → ((x : E)
              → (k x).0
                ≡ first_or (not_connected (last_error (suc n) (some x) ds)) (events (suc n) ds))
          → (settle c parse_config new_with_config done o a t t' k).0
            ≡ first_or
                (not_connected (last_error (suc n) (error_of a) ds))
                (stopped o ∷ tried a ∷ events (suc n) ds)
      step (some x) a t t' k h = refl
      step none (inr pool) t t' k h = refl
      step none (inl x) t t' k h = h x

  -- However the attempts and the waits go, what is returned is what the first event that decides
  -- says, in the order in which they happen: an attempt that gives a pool, or a wait in which the
  -- context ends. Where none does, it is the error of the fourth attempt.
  pub connect_with_retry-first :
      (connect_with_retry c parse_config new_with_config done).0
      ≡ first_or (not_connected (error_of (attempt c parse_config new_with_config done 3))) (
          tried (attempt c parse_config new_with_config done 0)
          ∷ stopped (done 1)
          ∷ tried (attempt c parse_config new_with_config done 1)
          ∷ stopped (done 2)
          ∷ tried (attempt c parse_config new_with_config done 2)
          ∷ stopped (done 3)
          ∷ tried (attempt c parse_config new_with_config done 3)
          ∷ [])
  unfolding connect_with_retry interrupted
  connect_with_retry-first = retry-events 0 none backoff (record { attempts = 0; waited = 0 })

  retry-effort :
      (n : ℕ) (last : Option E) (ds : List ℕ) (t : Effort)
      → ((loop n last ds t).1.attempts ≤ t.attempts + length ds)
        × ((loop n last ds t).1.waited ≤ t.waited + total ds)
  unfolding retry
  retry-effort n last [] t = (omega arith, omega arith)
  retry-effort n last (d ∷ ds) t =
      step (interrupted c parse_config new_with_config done n d) (try n) _ λ x.
        retry-effort (suc n) (some x) ds
          (record { attempts = suc t.attempts; waited = t.waited + d })
    where
      step :
          (o : Option E) (a : E ⊎ Pool) (k : E → Connection E Pool × Effort)
          → ((x : E)
              → ((k x).1.attempts ≤ suc t.attempts + length ds)
                × ((k x).1.waited ≤ t.waited + d + total ds))
          → ((settle c parse_config new_with_config done o a
                (record t { waited = t.waited + d })
                (record { attempts = suc t.attempts; waited = t.waited + d })
                k).1.attempts
              ≤ t.attempts + length (d ∷ ds))
            × ((settle c parse_config new_with_config done o a
                  (record t { waited = t.waited + d })
                  (record { attempts = suc t.attempts; waited = t.waited + d })
                  k).1.waited
                ≤ t.waited + total (d ∷ ds))
      step (some x) a k h = (omega arith, omega arith)
      step none (inr pool) k h = (omega arith, omega arith)
      step none (inl x) k h = (omega (arith, (h x).0), omega (arith, (h x).1))

  -- It tries at most four times and begins waits of at most eight seconds in all.
  pub connect_with_retry-bounds :
      ((connect_with_retry c parse_config new_with_config done).1.attempts ≤ 4)
      × ((connect_with_retry c parse_config new_with_config done).1.waited ≤ 8 * 1000000000)
  unfolding connect_with_retry
  connect_with_retry-bounds = retry-effort 0 none backoff (record { attempts = 0; waited = 0 })
