-- ===== src/App/Connect.antt =====
-- `connectWithRetry` of internal/app/app.go
pub mod Laws
use pr_reviewer_service.Prelude.{
  ℕ, suc, ◌+◌, ◌*◌, String, Option, none, some, List, [], ◌∷◌, ◌⊎◌, inl, inr, leb, if◌then◌else◌, ℤ,
  is_positive, is_natural,
}
use pr_reviewer_service.Config.{Config}

-- The fields of `pgxpool.Config` that are set here.
pub record PoolConfig : Type 0 where
  pub max_conns : ℤ
  pub min_conns : ℤ
  pub max_conn_idle_time : ℤ
  pub max_conn_lifetime : ℤ

-- The four tests that lay the configuration over what the connection string says.
unfoldable pub pool_config : Config → PoolConfig → PoolConfig
pool_config c p =
    let d = c.database in
    record {
      max_conns = if is_positive d.max_connections then d.max_connections else p.max_conns;
      min_conns = if is_natural d.min_connections then d.min_connections else p.min_conns;
      max_conn_idle_time =
          if is_positive d.max_conn_idle_time then d.max_conn_idle_time else p.max_conn_idle_time;
      max_conn_lifetime =
          if is_positive d.max_conn_lifetime then d.max_conn_lifetime else p.max_conn_lifetime;
    }

-- What `connectWithRetry` returns: a pool, the error of its context, or the last error of an
-- attempt, behind `connect db`.
pub data Connection (E Pool : Type 0) : Type 0 where
  connected : Pool → Connection E Pool
  cancelled : E → Connection E Pool
  not_connected : Option E → Connection E Pool

-- How often it has tried, and the nanoseconds of the waits that it has begun.
pub record Effort : Type 0 where
  pub attempts : ℕ
  pub waited : ℕ

abbrev pub backoff : List ℕ
backoff = 0 ∷ 1000000000 ∷ 2 * 1000000000 ∷ 5 * 1000000000 ∷ []

-- Attempt `n` parses the connection string by `parse_config n` and opens the pool by
-- `new_with_config n`; `done n` is the context's error where the wait before attempt `n` ends with it.
module _ {E Pool : Type 0} (c : Config) (parse_config : ℕ → String → E ⊎ PoolConfig)
    (new_with_config : ℕ → PoolConfig → E ⊎ Pool) (done : ℕ → Option E) where
  unfoldable pub attempt : ℕ → E ⊎ Pool
  unfolding pool_config
  attempt n = elim (parse_config n c.database.url) [
    | inl x ↦ inl x
    | inr p ↦ new_with_config n (pool_config c p)
  ]

  -- The `select` before attempt `n`, where there is a delay.
  unfoldable pub interrupted : ℕ → ℕ → Option E
  interrupted n delay = if leb delay 0 then none else done n

  -- The rest of the loop's body: `return` where the wait was interrupted or the attempt gave a pool,
  -- else the next round.
  abbrev pub settle :
      Option E
      → E ⊎ Pool
      → Effort
      → Effort
      → (E → Connection E Pool × Effort)
      → Connection E Pool × Effort
  settle (some x) a t t' next = (cancelled x, t)
  settle none (inr pool) t t' next = (connected pool, t')
  settle none (inl x) t t' next = next x

  -- The loop over the delays that are left.
  unfoldable pub retry : ℕ → Option E → List ℕ → Effort → Connection E Pool × Effort
  retry n last [] t = (not_connected last, t)
  retry n last (delay ∷ delays) t =
      let t' = record t { waited = t.waited + delay } in
      let t'' = record t' { attempts = suc t'.attempts } in
      settle (interrupted n delay) (attempt n) t' t'' λ x. retry (suc n) (some x) delays t''

  unfoldable pub connect_with_retry : Connection E Pool × Effort
  unfolding retry
  connect_with_retry = retry 0 none backoff (record { attempts = 0; waited = 0 })
