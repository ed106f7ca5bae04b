-- ===== src/Engine/Enabled/Drift.antt =====
-- The check of the metadata in src/mcp_behaviour_guard/engine.py calls nothing but a tool of the
-- contract that may be invoked.
use mcp_behaviour_guard.Prelude.{
  ◌||◌, ℕ, zero, suc, ◌+◌, eqb, String, true, not, ◌≡◌, ◌∙◌, ap, Option, none, some, refl,
}
use mcp_behaviour_guard.Json.{Fields}
use mcp_behaviour_guard.Models.{lookup, ToolContract}
use mcp_behaviour_guard.Client.{ClientCall, SessionReply, invoke_on_session}
use mcp_behaviour_guard.Client.Record.{invoke_on_session-tool}
use mcp_behaviour_guard.Engine.State.{GuardEngine}
use mcp_behaviour_guard.Engine.Keeps.{Keeps, bind-Keeps, return-Keeps, if-Keeps, item-Keeps}
use mcp_behaviour_guard.Engine.Enabled.{
  is_callable, Respects, CallsEnabled, Expected, outside_call-Keeps, add_finding-Keeps,
  record_invocation-Keeps, lookup-IsCallable, IsDeclared, lookup-Expected, or_first-known,
}
use mcp_behaviour_guard.Engine.Enabled.Checks.{unless_skipped-Keeps}
use mcp_behaviour_guard.Engine.Access.{is_true}
use mcp_behaviour_guard.Engine.Drift.{
  Watch, call_driver, driver_call, take_snapshot, with_initial, in_session, watch_sessions,
  watch_as, watch_driver, watch_if_named, check_temporal_integrity, is_some, temporal,
  calls_unless_stopped,
}
use mcp_behaviour_guard.Engine.Effects.{nonempty_name, or_first}
use mcp_behaviour_guard.Models.Accepted.{driver-known, permitted-IsIdentity, lookup-Memᴰ}

module _ {World : Type 0} (guard : GuardEngine World) (Q : World → Type 0)
    (respects : Respects guard Q) where
  module _ (identity_name driver_name : String) (h : is_callable guard driver_name ≡ true) where
    recorded-IsCallable :
        (call : ClientCall) (reply : SessionReply)
        → is_callable guard call.tool ≡ true
        → is_callable guard (invoke_on_session guard.library.folding call none reply).tool ≡ true
    recorded-IsCallable call reply k =
        ap (is_callable guard) (invoke_on_session-tool guard.library.folding call none reply) ∙ k

    call_driver-Keeps :
        (left number session : ℕ) (watch : Watch)
        → Keeps
            (CallsEnabled guard Q)
            (Expected guard)
            (call_driver guard identity_name driver_name left number session watch)
    unfolding call_driver
    call_driver-Keeps zero number session watch = return-Keeps watch
    call_driver-Keeps (suc left) number session watch =
        let call = driver_call guard identity_name driver_name session number in
        bind-Keeps
          (outside_call-Keeps guard Q (guard.outside.call_on_session call)
            (respects.call_on_session call h))
          (λ reply.
            let invocation = invoke_on_session guard.library.folding call none reply in
            bind-Keeps
              (record_invocation-Keeps guard Q none invocation (recorded-IsCallable call reply h))
              (λ _.
                if-Keeps (not (is_true invocation.allowed)) (λ e. return-Keeps _)
                  (λ e.
                    if-Keeps ((temporal guard).rediscover_after_each_call || eqb left 0)
                      (λ e.
                        bind-Keeps
                          (outside_call-Keeps guard Q guard.outside.snapshot respects.snapshot)
                          (λ snapshot.
                            let seen =
                              take_snapshot guard identity_name driver_name session number watch
                                snapshot in
                            if-Keeps (seen.stop_requested || not (is_some snapshot))
                              (λ e. return-Keeps _)
                              (λ e. call_driver-Keeps left (number + 1) session seen)))
                      (λ e. call_driver-Keeps left (number + 1) session watch))))

    calls_unless_stopped-Keeps :
        (session : ℕ) (watch : Watch)
        → Keeps
            (CallsEnabled guard Q)
            (Expected guard)
            (calls_unless_stopped guard identity_name driver_name session watch)
    calls_unless_stopped-Keeps session watch =
        if-Keeps watch.stop_requested (λ e. return-Keeps _)
          (λ e. call_driver-Keeps (temporal guard).retests_per_session 1 session watch)

    with_initial-Keeps :
        (session : ℕ) (watch : Watch) (snapshot : Option Fields)
        → Keeps
            (CallsEnabled guard Q)
            (Expected guard)
            (with_initial guard identity_name driver_name session watch snapshot)
    with_initial-Keeps session watch none = return-Keeps _
    with_initial-Keeps session watch (some snapshot) = calls_unless_stopped-Keeps session _

    in_session-Keeps :
        (session : ℕ) (watch : Watch) (opened : Option (Unit {0}))
        → Keeps
            (CallsEnabled guard Q)
            (Expected guard)
            (in_session guard identity_name driver_name session watch opened)
    in_session-Keeps session watch none = return-Keeps _
    in_session-Keeps session watch (some opened) =
        bind-Keeps (outside_call-Keeps guard Q guard.outside.snapshot respects.snapshot)
          (λ snapshot. bind-Keeps (with_initial-Keeps session watch snapshot) (λ seen.
            bind-Keeps
              (outside_call-Keeps guard Q guard.outside.close_session respects.close_session)
              (λ raised. return-Keeps _)))

    pub watch_sessions-Keeps :
        (left session : ℕ) (watch : Watch)
        → Keeps
            (CallsEnabled guard Q)
            (Expected guard)
            (watch_sessions guard identity_name driver_name left session watch)
    unfolding watch_sessions
    watch_sessions-Keeps zero session watch = return-Keeps watch
    watch_sessions-Keeps (suc left) session watch =
        bind-Keeps
          (outside_call-Keeps guard Q (guard.outside.open_session identity_name)
            (respects.open_session identity_name))
          (λ opened. bind-Keeps (in_session-Keeps session watch opened) (λ seen.
            if-Keeps seen.stop_requested (λ e. return-Keeps seen)
              (λ e. watch_sessions-Keeps left (session + 1) seen)))

  watch_as-Keeps :
      (driver_name : String) (identity : Option String)
      → is_callable guard driver_name ≡ true
      → ((name : String) → identity ≡ some name → IsDeclared guard guard.contract.identities name)
      → Keeps (CallsEnabled guard Q) (Expected guard) (watch_as guard driver_name identity)
  unfolding watch_as
  watch_as-Keeps driver_name none h declared = add_finding-Keeps guard Q _
  watch_as-Keeps driver_name (some identity_name) h declared =
      item-Keeps (lookup identity_name guard.contract.identities)
        (lookup-Expected guard identity_name guard.contract.identities
          (declared identity_name refl))
        (λ identity e.
          bind-Keeps (watch_sessions-Keeps identity_name driver_name h _ _ _)
            (λ watch. add_finding-Keeps guard Q _))

  -- The identity that calls the driver is declared.
  driver_identity-IsDeclared :
      (driver_name : String) (driver : ToolContract)
      → (temporal guard).enabled ≡ true
      → nonempty_name (temporal guard).driver_tool ≡ some driver_name
      → lookup driver_name guard.contract.tools ≡ some driver
      → (name : String)
      → or_first (nonempty_name (temporal guard).identity) driver.permitted_identities ≡ some name
      → IsDeclared guard guard.contract.identities name
  driver_identity-IsDeclared driver_name driver enabled named found name h accepted =
      or_first-known _ (temporal guard).identity driver.permitted_identities name
        (driver-known guard.contract accepted driver_name enabled named).1
        (permitted-IsIdentity guard.contract accepted driver_name driver
          (lookup-Memᴰ driver_name driver guard.contract.tools found) name)
        h

  watch_if_named-Keeps :
      (given : Option String)
      → (temporal guard).enabled ≡ true
      → nonempty_name (temporal guard).driver_tool ≡ given
      → Keeps (CallsEnabled guard Q) (Expected guard) (watch_if_named guard given)
  unfolding watch_driver
  watch_if_named-Keeps none enabled named = return-Keeps _
  watch_if_named-Keeps (some driver_name) enabled named =
      item-Keeps (lookup driver_name guard.contract.tools)
        (λ e accepted.
          absurd ((driver-known guard.contract accepted driver_name enabled named).0 e))
        (λ driver e.
          unless_skipped-Keeps guard Q respects driver (add_finding-Keeps guard Q _) (λ h.
            watch_as-Keeps driver_name _ (lookup-IsCallable guard Q driver_name driver e h)
              (driver_identity-IsDeclared driver_name driver enabled named e)))

  pub check_temporal_integrity-Keeps :
      Keeps (CallsEnabled guard Q) (Expected guard) (check_temporal_integrity guard)
  unfolding check_temporal_integrity
  check_temporal_integrity-Keeps =
      if-Keeps (temporal guard).enabled (λ e. watch_if_named-Keeps _ e refl) (λ e. return-Keeps _)
