-- ===== src/Engine/Bounded.antt =====
-- How many calls the check of the metadata in src/mcp_behaviour_guard/engine.py makes.
use Prim.Native.Nat.{◌*◌}
use mcp_behaviour_guard.Prelude.{
  ℕ, ◌+◌, ◌≤◌, String, Bool, true, false, [], ◌∷◌, Option, none, some, if◌then◌else◌, length,
  length-append, arith, suc, not, ◌||◌, eqb, zero,
}
use mcp_behaviour_guard.Models.{InvocationRecord, Finding, lookup}
use mcp_behaviour_guard.Engine.State.{
  GuardEngine, EngineState, Guard, Raised, raise, done, ◌>>=◌, return, outside_call, item_or_throw,
  add_finding, after_step, change, throw,
}
use mcp_behaviour_guard.Engine.Invoke.{tool_invocation_enabled}
use mcp_behaviour_guard.Engine.Recording.{record_invocation, exported_record}
use mcp_behaviour_guard.Engine.Drift.{
  call_driver, Watch, watch_sessions, temporal, driver_call, with_initial, in_session,
  take_snapshot, is_some, watch_as, watch_driver, check_temporal_integrity, watch_if_named,
}
use mcp_behaviour_guard.Json.{Fields}
use mcp_behaviour_guard.Client.{invoke_on_session}
use mcp_behaviour_guard.Engine.Access.{is_true}

-- The method records at most n calls.
pub record AtMost {World : Type 0} (n : ℕ) {A : Type 0} (method : Guard World A) : Type 0 where
  pub adds :
      (s : EngineState World) → length (method.run s).1.invocations ≤ n + length s.invocations

module _ {World : Type 0} where
  after_step-AtMost :
      {A B : Type 0} (n m : ℕ) (rest : A → Guard World B)
      → ((a : A) → AtMost m (rest a))
      → (r : Raised A × EngineState World) (before : ℕ) → length r.1.invocations ≤ n + before
      → length (after_step rest r).1.invocations ≤ n + m + before
  after_step-AtMost n m rest k (raise e, s) before h = ground arith
  after_step-AtMost n m rest k (done a, s) before h = ground (arith, (k a).adds s)

  bind-AtMost :
      {A B : Type 0} {k : ℕ} {method : Guard World A} {rest : A → Guard World B} (n m : ℕ)
      → n + m ≤ k
      → AtMost n method
      → ((a : A) → AtMost m (rest a))
      → AtMost k (method >>= rest)
  unfolding ◌>>=◌
  bind-AtMost {method} {rest} n m e h f = record {
    adds = λ s.
        ground
          (arith, after_step-AtMost n m rest f (method.run s) (length s.invocations) (h.adds s));
  }

  none-AtMost : {A : Type 0} (n : ℕ) (a : A) → AtMost {World = World} n (return a)
  unfolding return
  none-AtMost n a = record { adds = λ s. ground arith }

  outside_call-AtMost : {A : Type 0} (call : World → A × World) → AtMost 0 (outside_call call)
  unfolding outside_call
  outside_call-AtMost call = record { adds = λ s. ground arith }

  add_finding-AtMost : (n : ℕ) (finding : Finding) → AtMost {World = World} n (add_finding finding)
  unfolding add_finding change
  add_finding-AtMost n finding = record { adds = λ s. ground arith }

  item-AtMost :
      {A B : Type 0} (n : ℕ) (item : Option A) {rest : A → Guard World B}
      → ((a : A) → AtMost n (rest a))
      → AtMost n (item_or_throw item >>= rest)
  unfolding item_or_throw ◌>>=◌ throw return
  item-AtMost n none k = record { adds = λ s. ground arith }
  item-AtMost n (some a) k = record { adds = (k a).adds }

  if-AtMost :
      {A : Type 0} {method other : Guard World A} (n : ℕ) (b : Bool)
      → AtMost n method
      → AtMost n other
      → AtMost n (if b then method else other)
  if-AtMost n true h k = h
  if-AtMost n false h k = k

  module _ (guard : GuardEngine World) where
    record_invocation-AtMost :
        (operation : Option String) (invocation : InvocationRecord)
        → AtMost 1 (record_invocation guard operation invocation)
    unfolding record_invocation change
    record_invocation-AtMost operation invocation = record {
      adds = λ s.
          ground
            (arith, length-append s.invocations (exported_record guard operation invocation ∷ []));
    }

    module _ (identity_name driver_name : String) where
      call_driver-AtMost :
          (left number session : ℕ) (watch : Watch)
          → AtMost left (call_driver guard identity_name driver_name left number session watch)
      unfolding call_driver
      call_driver-AtMost zero number session watch = none-AtMost 0 watch
      call_driver-AtMost (suc left) number session watch =
          let call = driver_call guard identity_name driver_name session number in
          bind-AtMost 0 (suc left) (ground arith)
            (outside_call-AtMost (guard.outside.call_on_session call))
            (λ reply.
              let invocation = invoke_on_session guard.library.folding call none reply in
              bind-AtMost 1 left (ground arith) (record_invocation-AtMost none invocation) (λ _.
                if-AtMost left (not (is_true invocation.allowed)) (none-AtMost left _) (
                  if-AtMost left ((temporal guard).rediscover_after_each_call || eqb left 0)
                    (bind-AtMost 0 left (ground arith) (outside_call-AtMost guard.outside.snapshot)
                      (λ snapshot.
                        let seen =
                          take_snapshot guard identity_name driver_name session number watch
                            snapshot in
                        if-AtMost left (seen.stop_requested || not (is_some snapshot))
                          (none-AtMost left _) (call_driver-AtMost left (number + 1) session seen)))
                    (call_driver-AtMost left (number + 1) session watch))))

      with_initial-AtMost :
          (session : ℕ) (watch : Watch) (snapshot : Option Fields)
          → AtMost
              (temporal guard).retests_per_session
              (with_initial guard identity_name driver_name session watch snapshot)
      with_initial-AtMost session watch none = none-AtMost _ _
      with_initial-AtMost session watch (some snapshot) =
          if-AtMost _ _ (none-AtMost _ _) (call_driver-AtMost _ 1 session _)

      in_session-AtMost :
          (session : ℕ) (watch : Watch) (opened : Option (Unit {0}))
          → AtMost
              (temporal guard).retests_per_session
              (in_session guard identity_name driver_name session watch opened)
      in_session-AtMost session watch none = none-AtMost _ _
      in_session-AtMost session watch (some opened) =
          let calls = (temporal guard).retests_per_session in
          bind-AtMost 0 calls (ground arith) (outside_call-AtMost guard.outside.snapshot)
            (λ snapshot.
              bind-AtMost calls 0 (ground arith) (with_initial-AtMost session watch snapshot)
                (λ seen.
                  bind-AtMost 0 0 (ground arith) (outside_call-AtMost guard.outside.close_session)
                    (λ raised. none-AtMost 0 _)))

      watch_sessions-AtMost :
          (left session : ℕ) (watch : Watch)
          → AtMost
              (left * (temporal guard).retests_per_session)
              (watch_sessions guard identity_name driver_name left session watch)
      unfolding watch_sessions
      watch_sessions-AtMost zero session watch = none-AtMost _ watch
      watch_sessions-AtMost (suc left) session watch =
          let calls = (temporal guard).retests_per_session in
          bind-AtMost 0 (suc left * calls) (ground arith)
            (outside_call-AtMost (guard.outside.open_session identity_name))
            (λ opened.
              bind-AtMost calls (left * calls) (ground arith)
                (in_session-AtMost session watch opened)
                (λ seen.
                  if-AtMost _ seen.stop_requested (none-AtMost _ seen)
                    (watch_sessions-AtMost left (session + 1) seen)))

    -- The calls that the contract allows a check of the metadata.
    abbrev pub call_budget : ℕ
    call_budget = (temporal guard).sessions * (temporal guard).retests_per_session

    watch_as-AtMost :
        (driver_name : String) (identity : Option String)
        → AtMost call_budget (watch_as guard driver_name identity)
    unfolding watch_as
    watch_as-AtMost driver_name none = add_finding-AtMost _ _
    watch_as-AtMost driver_name (some identity_name) =
        item-AtMost call_budget (lookup identity_name guard.contract.identities) (λ identity.
          bind-AtMost call_budget 0 (ground arith)
            (watch_sessions-AtMost identity_name driver_name (temporal guard).sessions 1 _)
            (λ watch. add_finding-AtMost 0 _))

    watch_if_named-AtMost :
        (driver : Option String) → AtMost call_budget (watch_if_named guard driver)
    unfolding watch_driver
    watch_if_named-AtMost none = none-AtMost _ _
    watch_if_named-AtMost (some driver_name) =
        item-AtMost call_budget (lookup driver_name guard.contract.tools) (λ driver.
          if-AtMost call_budget (not (tool_invocation_enabled guard driver))
            (add_finding-AtMost _ _) (watch_as-AtMost driver_name _))

-- The check of the metadata records at most sessions × retests_per_session calls, whatever the
-- target does, and whether it ends with a result or with an exception.
pub check_temporal_integrity-AtMost :
    {World : Type 0} (guard : GuardEngine World) (s : EngineState World)
    → length ((check_temporal_integrity guard).run s).1.invocations
      ≤ call_budget guard + length s.invocations
unfolding check_temporal_integrity
check_temporal_integrity-AtMost guard =
    (if-AtMost (call_budget guard) (temporal guard).enabled (watch_if_named-AtMost guard _)
      (none-AtMost _ _)).adds
