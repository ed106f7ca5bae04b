-- ===== src/Engine/Enabled.antt =====
-- Which tools a run of src/mcp_behaviour_guard/engine.py calls: the properties that the calls keep.
-- Calls has the same for the calls, Checks, Probes, Windows and Drift for the checks, Run for the run.
pub mod Calls
pub mod Checks
pub mod Probes
pub mod Windows
pub mod Drift
pub mod Run
use mathlib.Core.Option
use mcp_behaviour_guard.Prelude.{
  String, Bool, true, false, not, ◌≡◌, refl, ◌&&◌, ◌||◌, ◌++◌, any, all, List, [], ◌∷◌, Option,
  some, ◌==◌, arith, sym, Bool-cases, ap, inl, eq_refl, inr, ◌∙◌, none, contains,
}
use mathlib.Core.List.{Memᴰ}
use mcp_behaviour_guard.Models.{InvocationRecord, ToolContract, Finding, lookup, names_of}
use mcp_behaviour_guard.Client.{ClientCall}
use mcp_behaviour_guard.Engine.State.{
  GuardEngine, EngineState, outside_call, change, add_finding, EngineError, key_error,
}
use mcp_behaviour_guard.Engine.Observing.{ObserverHandle}
use mcp_behaviour_guard.Engine.Invoke.{tool_invocation_enabled, first}
use mcp_behaviour_guard.Engine.Recording.{record_invocation, exported_record}
use mcp_behaviour_guard.Engine.Keeps.{Keeps}
use mcp_behaviour_guard.Models.References.{references_exist, is_unknown}
use mcp_behaviour_guard.Models.Accepted.{
  lookup-declared, side_effect_identity-known, permitted-IsIdentity,
}
use mcp_behaviour_guard.Engine.Effects.{probe_identity, nonempty_name, or_first}

-- A tool that only reads may always be invoked; another one where the contract asks for destructive
-- tests, and lab mode is on or not required.
abbrev pub may_invoke : {World : Type 0} → GuardEngine World → ToolContract → Bool
may_invoke guard tool =
    tool.read_only
    || guard.contract.safety.destructive_tests
      && (guard.lab_mode || not guard.contract.safety.require_lab_mode)

-- The name is that of a tool of the contract that may be invoked.
unfoldable pub is_callable : {World : Type 0} → GuardEngine World → String → Bool
is_callable guard name = any (λ t. t.0 == name && may_invoke guard t.1) guard.contract.tools

-- What the world keeps when no call but one of such a tool is made of it.
pub record Respects {World : Type 0} (guard : GuardEngine World) (Q : World → Type 0) : Type 0 where
  pub exchange :
      (call : ClientCall)
      → is_callable guard call.tool ≡ true
      → (w : World) → Q w
      → Q (guard.outside.exchange call w).1
  pub call_on_session :
      (call : ClientCall)
      → is_callable guard call.tool ≡ true
      → (w : World) → Q w
      → Q (guard.outside.call_on_session call w).1
  pub begin : (handle : ObserverHandle) (w : World) → Q w → Q (guard.outside.begin handle w).1
  pub collect : (handle : ObserverHandle) (w : World) → Q w → Q (guard.outside.collect handle w).1
  pub fresh_id : (w : World) → Q w → Q (guard.outside.fresh_id w).1
  pub list_tools : (name : String) (w : World) → Q w → Q (guard.outside.list_tools name w).1
  pub open_session : (name : String) (w : World) → Q w → Q (guard.outside.open_session name w).1
  pub snapshot : (w : World) → Q w → Q (guard.outside.snapshot w).1
  pub close_session : (w : World) → Q w → Q (guard.outside.close_session w).1

abbrev pub is_key_error : EngineError → Bool
is_key_error key_error = true
is_key_error _ = false

-- The exceptions that are expected of a contract that `references_exist` accepts.
abbrev pub Expected : {World : Type 0} → GuardEngine World → EngineError → Type 0
Expected guard e = references_exist guard.contract ≡ none → is_key_error e ≡ false

-- Where the contract is accepted, the name is declared.
abbrev pub IsDeclared :
    {World : Type 0} → GuardEngine World → {A : Type 0} → List (String × A) → String → Type 0
IsDeclared guard entries name =
    references_exist guard.contract ≡ none → contains (names_of entries) name ≡ true

-- A lookup of a declared name does not fail.
pub lookup-Expected :
    {World : Type 0} (guard : GuardEngine World) {A : Type 0} (name : String)
    (entries : List (String × A))
    → IsDeclared guard entries name
    → lookup name entries ≡ none
    → Expected guard key_error
lookup-Expected guard name entries declared e accepted =
    absurd (lookup-declared name entries (declared accepted) e)

module _ {World : Type 0} (guard : GuardEngine World) (Q : World → Type 0) where
  -- The world's property, and that every record is one of a tool that may be invoked.
  abbrev pub CallsEnabled : EngineState World → Type 0
  CallsEnabled s = Q s.world × (all (λ i. is_callable guard i.tool) s.invocations ≡ true)

  all_and_one :
      (invocations : List InvocationRecord) (invocation : InvocationRecord)
      → all (λ i. is_callable guard i.tool) invocations ≡ true
      → is_callable guard invocation.tool ≡ true
      → all (λ i. is_callable guard i.tool) (invocations ++ invocation ∷ []) ≡ true
  all_and_one [] invocation h k = rw k refl
  all_and_one (i ∷ is) invocation h k = ground (arith, all_and_one is invocation)

  pub outside_call-Keeps :
      {A : Type 0} (call : World → A × World)
      → ((w : World) → Q w → Q (call w).1)
      → Keeps CallsEnabled (Expected guard) (outside_call call)
  unfolding outside_call
  outside_call-Keeps call h = record { holds = λ s j. (tt, (h s.world j.0, j.1)) }

  pub add_finding-Keeps :
      (finding : Finding) → Keeps CallsEnabled (Expected guard) (add_finding finding)
  unfolding add_finding change
  add_finding-Keeps finding = record { holds = λ s j. (tt, j) }

  pub record_invocation-Keeps :
      (operation : Option String) (invocation : InvocationRecord)
      → is_callable guard invocation.tool ≡ true
      → Keeps CallsEnabled (Expected guard) (record_invocation guard operation invocation)
  unfolding record_invocation change
  record_invocation-Keeps operation invocation h = record {
    holds = λ s j.
        (tt, (j.0, all_and_one s.invocations (exported_record guard operation invocation) j.1 h));
  }

  -- A tool of the contract that may be invoked is callable under its name.
  pub mem-IsCallable :
      (name : String) (tool : ToolContract)
      → Memᴰ (name, tool) guard.contract.tools
      → tool_invocation_enabled guard tool ≡ true
      → is_callable guard name ≡ true
  unfolding is_callable tool_invocation_enabled
  mem-IsCallable name tool member h = any_of guard.contract.tools member
    where
      any_of :
          (tools : List (String × ToolContract))
          → Memᴰ (name, tool) tools
          → any (λ t. t.0 == name && may_invoke guard t.1) tools ≡ true
      any_of [] m = elim m [ ]
      any_of (t ∷ tools) (Memᴰ.head e) =
          rw (sym (ap (λ p. p.0) e), sym (ap (λ p. p.1) e), h, eq_refl name) refl
      any_of (t ∷ tools) (Memᴰ.tail m) = ground (arith, any_of tools m)

  lookup_here :
      (k name : String) (t : ToolContract) (tools : List (String × ToolContract))
      → k == name ≡ true
      → lookup name ((k, t) ∷ tools) ≡ some t
  lookup_here k name t tools same = rw same refl

  lookup_there :
      (k name : String) (t : ToolContract) (tools : List (String × ToolContract))
      → k == name ≡ false
      → lookup name ((k, t) ∷ tools) ≡ lookup name tools
  lookup_there k name t tools apart = rw apart refl

  pub lookup-IsCallable :
      (name : String) (tool : ToolContract)
      → lookup name guard.contract.tools ≡ some tool
      → tool_invocation_enabled guard tool ≡ true
      → is_callable guard name ≡ true
  unfolding is_callable tool_invocation_enabled
  lookup-IsCallable name tool e h = any_of guard.contract.tools e
    where
      any_of :
          (tools : List (String × ToolContract))
          → lookup name tools ≡ some tool
          → any (λ t. t.0 == name && may_invoke guard t.1) tools ≡ true
      any_of [] e = ground arith
      any_of ((k, t) ∷ tools) e = elim (Bool-cases (k == name)) [
        | inl same ↦
            let found : t ≡ tool =
              Option.some-injective t tool (sym (lookup_here k name t tools same) ∙ e) in
            rw (same, ap (may_invoke guard) found, h) refl
        | inr apart ↦ rw (apart, any_of tools (sym (lookup_there k name t tools apart) ∙ e)) refl
      ]

nonempty_name-some :
    (given : Option String) (name : String) → nonempty_name given ≡ some name → given ≡ some name
nonempty_name-some none name h = h
nonempty_name-some (some n) name h = elim (Bool-cases (n == "")) [
  | inl e ↦ ground arith
  | inr e ↦ ground arith
]

first-contained :
    (names : List String) (name : String) → first names ≡ some name → contains names name ≡ true
first-contained [] name h = absurd (Option.none-ne-some _ h)
first-contained (x ∷ xs) name h = rw (Option.some-injective x name h) (rw (eq_refl name) refl)

-- The identity that is given, or else the first of those permitted, is known.
pub or_first-known :
    (known : List String) (given : Option String) (permitted : List String) (name : String)
    → is_unknown known given ≡ false
    → (contains permitted name ≡ true → contains known name ≡ true)
    → or_first (nonempty_name given) permitted ≡ some name
    → contains known name ≡ true
or_first-known known none permitted name g h e =
    h (first-contained permitted name (nonempty_name-some (first permitted) name e))
or_first-known known (some n) permitted name g h e = elim (Bool-cases (n == "")) [
  | inl empty ↦
      h (first-contained permitted name (nonempty_name-some (first permitted) name (rw empty at e)))
  | inr named ↦ ground arith
]

-- The identity of a tool's probe is declared, where there is one.
pub probe_identity-IsDeclared :
    {World : Type 0} (guard : GuardEngine World) (tool_name : String) (tool : ToolContract)
    → Memᴰ (tool_name, tool) guard.contract.tools
    → (name : String) → probe_identity tool ≡ some name
    → IsDeclared guard guard.contract.identities name
probe_identity-IsDeclared guard tool_name tool member name h accepted =
    or_first-known _ tool.side_effect_identity tool.permitted_identities name
      (side_effect_identity-known guard.contract accepted tool_name tool member)
      (permitted-IsIdentity guard.contract accepted tool_name tool member name) h
