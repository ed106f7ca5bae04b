-- ===== src/Models/Accepted.antt =====
-- What a contract that `Contract.references_exist` of src/mcp_behaviour_guard/models.py accepts
-- declares.
use mcp_behaviour_guard.Prelude.{
  String, true, false, ◌≡◌, refl, List, [], ◌∷◌, Option, none, some, ◌==◌, arith, ◌≢◌, sym, inl,
  inr, contains, is_empty, ==-cases, Bool-cases, eq_refl, ==_comm_false, eq_iff,
}
use mcp_behaviour_guard.Prelude.Option
use mathlib.Core.List.{Memᴰ}
use mcp_behaviour_guard.Prelude.Table.{fetch_all}
use mcp_behaviour_guard.Models.{
  Contract, ToolContract, PolicyProbe, SessionIsolationTest, names_of, lookup, TenantProbe,
  TemporalIntegritySpec,
}
use mcp_behaviour_guard.Models.References.{
  or_else, missing_names, is_unknown, policy_errors, tool_errors, tools_errors, session_errors,
  references_exist, ReferenceError, temporal_errors, driver_errors, named_driver_errors,
}
use mcp_behaviour_guard.Engine.Effects.{nonempty_name}

-- A name that is declared is found.
pub lookup-declared :
    {A : Type 0} (name : String) (entries : List (String × A))
    → contains (names_of entries) name ≡ true
    → lookup name entries ≢ none
lookup-declared name [] h e = ground arith
lookup-declared name ((k, v) ∷ rest) h e = elim (Bool-cases (k == name)) [
  | inl same ↦ ground arith
  | inr apart ↦ ground (arith, ==_comm_false k name apart, lookup-declared name rest)
]

-- A check that raises nothing.
pub or_else-none :
    (first later : Option ReferenceError)
    → or_else first later ≡ none
    → (first ≡ none) × (later ≡ none)
or_else-none none later h = (refl, h)
or_else-none (some e) later h = absurd (Option.none-ne-some _ (sym h))

-- Names of which none is missing are known.
pub missing_names-known :
    (known names : List String) (name : String)
    → is_empty (missing_names known names) ≡ true
    → contains names name ≡ true
    → contains known name ≡ true
unfolding missing_names fetch_all
missing_names-known known [] name h m = ground arith
missing_names-known known (x ∷ names) name h m = elim (==-cases name x) [
  | inl same ↦ rw same (ground (arith))
  | inr apart ↦ ground (arith, missing_names-known known names name)
]

pub contains-names_of :
    {A : Type 0} (entry : String × A) (entries : List (String × A))
    → Memᴰ entry entries
    → contains (names_of entries) entry.0 ≡ true
contains-names_of entry [] m = elim m [ ]
contains-names_of entry (e ∷ entries) (Memᴰ.head same) = rw same (ground (arith, eq_refl e.0))
contains-names_of entry (e ∷ entries) (Memᴰ.tail m) =
    ground (arith, contains-names_of entry entries m)

policy_errors-known :
    (identities : List String) (tool_name : String) (probes : List PolicyProbe)
    (probe : PolicyProbe)
    → policy_errors identities tool_name probes ≡ none
    → Memᴰ probe probes
    → contains identities probe.identity ≡ true
unfolding policy_errors
policy_errors-known identities tool_name [] probe h m = elim m [ ]
policy_errors-known identities tool_name (p ∷ probes) probe h (Memᴰ.head same) =
    rw same (ground arith)
policy_errors-known identities tool_name (p ∷ probes) probe h (Memᴰ.tail m) =
    policy_errors-known identities tool_name probes probe (or_else-none _ _ h).1 m

tools_errors-each :
    (identities : List String) (tools : List (String × ToolContract))
    (entry : String × ToolContract)
    → tools_errors identities tools ≡ none
    → Memᴰ entry tools
    → tool_errors identities entry.0 entry.1 ≡ none
unfolding tools_errors
tools_errors-each identities [] entry h m = elim m [ ]
tools_errors-each identities (t ∷ tools) entry h (Memᴰ.head same) = rw same (or_else-none _ _ h).0
tools_errors-each identities (t ∷ tools) entry h (Memᴰ.tail m) =
    tools_errors-each identities tools entry (or_else-none _ _ h).1 m

session_errors-each :
    (identities tools : List String) (tests : List SessionIsolationTest)
    (test : SessionIsolationTest)
    → session_errors identities tools tests ≡ none
    → Memᴰ test tests
    → (contains identities test.writer_identity ≡ true)
      × (contains identities test.reader_identity ≡ true)
      × (contains tools test.write.tool ≡ true)
      × (contains tools test.read.tool ≡ true)
unfolding session_errors
session_errors-each identities tools [] test h m = elim m [ ]
session_errors-each identities tools (t ∷ tests) test h (Memᴰ.head same) =
    rw same ((ground arith, ground arith, ground arith, ground arith))
session_errors-each identities tools (t ∷ tests) test h (Memᴰ.tail m) =
    session_errors-each identities tools tests test (ground arith) m

tool_errors-none :
    (identities : List String) (tool_name : String) (tool : ToolContract)
    → tool_errors identities tool_name tool ≡ none
    → (is_empty (missing_names identities tool.permitted_identities) ≡ true)
      × (is_unknown identities tool.side_effect_identity ≡ false)
      × (is_empty (missing_names identities (names_of tool.tenant_probes)) ≡ true)
      × (policy_errors identities tool_name tool.policy_probes ≡ none)
unfolding tool_errors
tool_errors-none identities tool_name tool h =
    (ground arith, ground arith, ground arith, ground arith)

-- What is found is an entry.
pub lookup-Memᴰ :
    {A : Type 0} (name : String) (a : A) (entries : List (String × A))
    → lookup name entries ≡ some a
    → Memᴰ (name, a) entries
lookup-Memᴰ name a [] h = absurd (Option.none-ne-some _ h)
lookup-Memᴰ name a ((k, v) ∷ rest) h = elim (Bool-cases (k == name)) [
  | inl same ↦
      let found : v ≡ a = Option.some-injective v a (rw same at h) in
      Memᴰ.head (rw ((eq_iff k name).0 same, found) refl)
  | inr apart ↦ Memᴰ.tail (lookup-Memᴰ name a rest (rw apart at h))
]

driver_errors-none :
    (identities : List String) (temporal : TemporalIntegritySpec) (driver : Option ToolContract)
    → driver_errors identities temporal driver ≡ none
    → (driver ≢ none) × (is_unknown identities temporal.identity ≡ false)
unfolding driver_errors
driver_errors-none identities temporal none h = absurd (Option.none-ne-some _ (sym h))
driver_errors-none identities temporal (some driver) h =
    (λ e. Option.none-ne-some _ (sym e), ground arith)

module _ (identities : List String) (tools : List (String × ToolContract))
    (temporal : TemporalIntegritySpec) (name : String) where
  named_driver_none :
      (given : Option String)
      → nonempty_name given ≡ some name
      → named_driver_errors identities tools temporal given ≡ none
      → driver_errors identities temporal (lookup name tools) ≡ none
  named_driver_none none g h = absurd (Option.none-ne-some _ g)
  named_driver_none (some n) g h = elim (Bool-cases (n == "")) [
    | inl e ↦ ground arith
    | inr e ↦ rw (sym (Option.some-injective n name (rw e at g))) (rw e at h)
  ]

  temporal_errors-none :
      temporal.enabled ≡ true
      → nonempty_name temporal.driver_tool ≡ some name
      → temporal_errors identities tools temporal ≡ none
      → driver_errors identities temporal (lookup name tools) ≡ none
  unfolding temporal_errors
  temporal_errors-none enabled given h =
      named_driver_none temporal.driver_tool given (rw enabled at h)

module _ (contract : Contract) (accepted : references_exist contract ≡ none) where
  abbrev IsIdentity : String → Type 0
  IsIdentity name = contains (names_of contract.identities) name ≡ true

  abbrev IsTool : String → Type 0
  IsTool name = contains (names_of contract.tools) name ≡ true

  module _ (tool_name : String) (tool : ToolContract)
      (member : Memᴰ (tool_name, tool) contract.tools) where
    tool_accepted :
        (is_empty (missing_names (names_of contract.identities) tool.permitted_identities) ≡ true)
        × (is_unknown (names_of contract.identities) tool.side_effect_identity ≡ false)
        × (is_empty (missing_names (names_of contract.identities) (names_of tool.tenant_probes))
            ≡ true)
        × (policy_errors (names_of contract.identities) tool_name tool.policy_probes ≡ none)
    unfolding references_exist
    tool_accepted =
        tool_errors-none _ tool_name tool (
          tools_errors-each _ contract.tools (tool_name, tool) (or_else-none _ _ accepted).0 member)

    pub permitted-IsIdentity :
        (name : String) → contains tool.permitted_identities name ≡ true → IsIdentity name
    permitted-IsIdentity name h =
        missing_names-known _ tool.permitted_identities name tool_accepted.0 h

    pub side_effect_identity-known :
        is_unknown (names_of contract.identities) tool.side_effect_identity ≡ false
    side_effect_identity-known = tool_accepted.1

    pub tenant_probe-IsIdentity :
        (entry : String × TenantProbe) → Memᴰ entry tool.tenant_probes → IsIdentity entry.0
    tenant_probe-IsIdentity entry m =
        missing_names-known _ (names_of tool.tenant_probes) entry.0 tool_accepted.2
          (contains-names_of entry tool.tenant_probes m)

    pub policy_probe-IsIdentity :
        (probe : PolicyProbe) → Memᴰ probe tool.policy_probes → IsIdentity probe.identity
    policy_probe-IsIdentity probe m =
        policy_errors-known _ tool_name tool.policy_probes probe tool_accepted.3 m

  pub session_test-names :
      (test : SessionIsolationTest)
      → Memᴰ test contract.session_tests
      → IsIdentity test.writer_identity
        × IsIdentity test.reader_identity
        × IsTool test.write.tool
        × IsTool test.read.tool
  unfolding references_exist
  session_test-names test m =
      session_errors-each _ _ contract.session_tests test
        (or_else-none _ _ (or_else-none _ _ accepted).1).0 m

  -- The driver of an enabled check is a tool, and its identity is declared.
  pub driver-known :
      (name : String)
      → contract.temporal_integrity.enabled ≡ true
      → nonempty_name contract.temporal_integrity.driver_tool ≡ some name
      → (lookup name contract.tools ≢ none)
        × (is_unknown (names_of contract.identities) contract.temporal_integrity.identity ≡ false)
  unfolding references_exist
  driver-known name enabled given =
      driver_errors-none _ contract.temporal_integrity (lookup name contract.tools) (
        temporal_errors-none _ contract.tools contract.temporal_integrity name enabled given
          (or_else-none _ _ (or_else-none _ _ accepted).1).1)
