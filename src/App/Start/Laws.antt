-- ===== src/App/Start/Laws.antt =====
-- How the service starts and how it ends.
use pr_reviewer_service.Prelude.{
  ◌≡◌, refl, Bool, true, false, Option, none, some, ◌⊎◌, inl, inr, arith,
}
use pr_reviewer_service.Config.{Config}
use pr_reviewer_service.App.Logger.{Logger, setup_logger}
use pr_reviewer_service.App.Start.{
  Event, ctx_done, server_failed, server_closed, Outside, App, NewError, Exit, new, after_shutdown,
  after_event, run, exit_of, main_with, main_logged, main,
}

module _ {E Pool : Type 0} (o : Outside E Pool) where
  -- How `main` may end from the configuration: with status 0 only once it has started, and then with
  -- everything closed; with the pool open only where the context has ended and the shutdown has failed.
  pub record Ends (c : Config) (x : Exit) : Type 0 where
    pub clean :
        x.code ≡ 0
        → (a : App Pool) × (new o c ≡ inr a) × (x.pool_open ≡ false) × (x.log_open ≡ false)
    pub leaking :
        x.pool_open ≡ true
        → (a : App Pool) × (e : E) × (new o c ≡ inr a)
          × (x.code ≡ 1)
          × (o.event ≡ ctx_done)
          × (o.shutdown a.cfg.timeouts.shutdown ≡ some e)

  module _ (c : Config) where
    failing : (left : Bool) → Ends c (record { code = 1; pool_open = false; log_open = left })
    failing left = record {
      clean = λ h. absurd (omega (arith, h));
      leaking = λ h. absurd (ground (arith, h));
    }

    module _ (l : Logger) (a : App Pool) (r : new o c ≡ inr a) where
      finishing : Ends c (record { code = 0; pool_open = false; log_open = false })
      finishing = record {
        clean = λ h. (a, r, refl, refl);
        leaking = λ h. absurd (ground (arith, h));
      }

      shutdown_lem :
          (s : Option E)
          → o.event ≡ ctx_done
          → o.shutdown a.cfg.timeouts.shutdown ≡ s
          → Ends c (exit_of o l (after_shutdown o s))
      shutdown_lem none ev h = finishing
      shutdown_lem (some x) ev h = record {
        clean = λ z. absurd (omega (arith, z));
        leaking = λ p. (a, x, r, refl, ev, h);
      }

      event_lem : (v : Event E) → o.event ≡ v → Ends c (exit_of o l (after_event o a.cfg v))
      event_lem ctx_done ev = shutdown_lem (o.shutdown a.cfg.timeouts.shutdown) ev refl
      event_lem (server_failed x) ev = failing l.has_closer
      event_lem server_closed ev = finishing

    main_with-Ends :
        (l : Logger) (n : NewError E ⊎ App Pool) → new o c ≡ n → Ends c (main_with o l n)
    unfolding run
    main_with-Ends l (inl x) r = failing l.has_closer
    main_with-Ends l (inr a) r = event_lem l a r o.event refl

    main_logged-Ends : (l : Option Logger) → Ends c (main_logged o c l)
    main_logged-Ends none = failing false
    main_logged-Ends (some l) = main_with-Ends l (new o c) refl

  -- The program exits with status 0 only once `New` has given an application, and then its pool and
  -- its log file are closed; it leaves the pool open only where the context has ended and the
  -- shutdown of the server has failed, and then it exits with status 1.
  pub main-Ends : (c : Config) → Ends c (main o (some c))
  unfolding main
  main-Ends c = main_logged-Ends c (setup_logger o.to_lower o.mkdir_all o.open_file c)
