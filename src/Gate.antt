-- ===== src/Gate.antt =====
-- The release gate of assurance/phase2/gate/gate.py: its exceptions, its files, and the policy
-- profile. Matrix has the expected findings, Snapshot the fixture's final evidence, Context the
-- bindings of a run, Evaluate and Promote the two commands. A message keeps its fixed part and the
-- identifiers in it.
pub mod Matrix
pub mod Scan
pub mod Snapshot
pub mod Context
pub mod Decision
pub mod Evaluate
pub mod Promote
pub mod Sound
pub mod Examples
pub mod Tests
use mcp_behaviour_guard.Prelude.{
  ℕ, String, Bool, true, false, Option, none, some, List, [], ◌∷◌, if◌then◌else◌,
}
use mcp_behaviour_guard.Prelude.Int.{pos}
use mcp_behaviour_guard.Json.{Json, text, integer, Fields}
use mcp_behaviour_guard.SavedRun.Value.{get, json_eq, as_object}
use mcp_behaviour_guard.SavedRun.Load.{
  Content, parsed, not_json, not_utf8, StoredFile, absent, present,
}

-- `refused` is a `GateError`; `crashed` is Python's TypeError for an unhashable value in a set test.
pub data Checked (A : Type 0) : Type 0 where
  refused : String → Checked A
  crashed : Checked A
  accepted : A → Checked A

infixl 5 ◌>>◌ ◌>>=◌
abbrev pub ◌>>=◌ : {A B : Type 0} → Checked A → (A → Checked B) → Checked B
refused message >>= rest = refused message
crashed >>= rest = crashed
accepted a >>= rest = rest a

abbrev pub ◌>>◌ : {A B : Type 0} → Checked A → Checked B → Checked B
first >> rest = first >>= λ _. rest

-- if not test: raise GateError(message)
abbrev pub require : Bool → String → Checked (Unit {0})
require true message = accepted tt
require false message = refused message

-- if not test: errors.append(message)
abbrev pub unless : Bool → String → List String
unless true message = []
unless false message = message ∷ []

abbrev pub mapping : String → Json → Checked Fields
mapping message value = elim (as_object value) [
  | none ↦ refused message
  | some fields ↦ accepted fields
]

-- value == "…"
abbrev pub is_text : String → Json → Bool
is_text s value = json_eq value (text s)

abbrev pub is_number : ℕ → Json → Bool
is_number n value = json_eq value (integer (pos n))

-- _sha
abbrev pub sha : StoredFile → Checked String
sha absent = refused "cannot hash trusted artifact"
sha (present digest content) = accepted digest

abbrev pub read_content : Content → Checked Json
read_content (parsed value) = accepted value
read_content not_json = refused "is unreadable/invalid JSON"
read_content not_utf8 = refused "is unreadable/invalid UTF-8"

-- _load
unfoldable pub load : StoredFile → Checked Fields
load absent = refused "is unreadable/invalid"
load (present digest content) = read_content content >>= mapping "must be a JSON object"

-- The gate's own files, beside gate.py.
pub record Embedded : Type 0 where
  pub expected_checks : StoredFile
  pub gate_rules : StoredFile
  pub gate_source : StoredFile

-- POLICY_SCOPE_BY_PLATFORM
unfoldable pub scope_of : Json → Option String
scope_of platform =
    if is_text "linux/arm64" platform
    then some "phase2b4_local_synthetic_gate_only"
    else if is_text "linux/amd64" platform
    then some "phase2c_trusted_ci_gate_only"
    else none

abbrev pub require_scope : Json → Option String → Checked (Unit {0})
require_scope scope none = refused "policy platform is unsupported"
require_scope scope (some expected) =
    require (is_text expected scope) "policy decision scope does not match selected platform"

abbrev pub is_guard : Option Fields → Bool
is_guard none = false
is_guard (some guard) = is_text "0.6.2" (get "version" guard)

-- The profile and its digest.
unfoldable pub validate_policy : Embedded → StoredFile → String → Checked (Fields × String)
unfolding load scope_of
validate_policy embedded policy_file selected_gate_image = do
  policy ← load policy_file
  require (is_number 1 (get "schema_version" policy)) "policy profile schema_version must be 1"
  digest ← sha policy_file
  require_scope (get "decision_scope" policy) (scope_of (get "platform" policy))
  images ← mapping "policy images mapping missing" (get "images" policy)
  require (is_text selected_gate_image (get "gate" images))
      "selected gate image does not match policy profile"
  expected ← sha embedded.expected_checks
  require (is_text expected (get "expected_checks_sha256" policy))
      "gate embedded expected-check matrix differs from policy"
  rules ← sha embedded.gate_rules
  require (is_text rules (get "gate_rules_sha256" policy)) "gate embedded rules differ from policy"
  source ← sha embedded.gate_source
  require (is_text source (get "gate_source_sha256" policy)) "gate source differs from policy"
  require (is_guard (as_object (get "guard" policy))) "policy Guard version is not 0.6.2"
  accepted (policy, digest)
