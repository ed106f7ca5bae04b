-- ===== src/Evidence.antt =====
-- src/mcp_behaviour_guard/evidence.py: the secrets of a contract, and their removal from what
-- leaves the process. A value is one that JSON can hold; a set is a list.
pub mod Labels
pub mod Tests
use mcp_behaviour_guard.Prelude.{
  starts_with, ℕ, suc, String, Bool, true, false, not, ◌&&◌, Option, none, some, List, [], ◌∷◌,
  ◌++◌, contains, ◌==◌, leb, if◌then◌else◌,
}
use mcp_behaviour_guard.Prelude.Table.{fetch_all, order_by}
use mcp_behaviour_guard.Json.{Json, text, array, object, Items, nil, cons, Fields, end, field}
use mcp_behaviour_guard.Models.{Contract, IdentitySpec, ToolContract, TenantProbe, names_of}

-- The regular expressions, and the methods of texts that the module uses: `sensitive_key` is the
-- search of `_SENSITIVE_KEY`, `scrub` the three substitutions in their order, `skip_seven` is
-- `value[7:]`.
pub record Filters : Type 0 where
  pub sensitive_key : String → Bool
  pub scrub : String → String
  pub replace : String → String → String → String
  pub lower : String → String
  pub skip_seven : String → String

-- len
abbrev pub text_length : String → ℕ
text_length String.[] = 0
text_length (String.◌∷◌ c rest) = suc (text_length rest)

abbrev pub omitted : Json
omitted = text "[omitted from exported evidence]"

abbrev pub redacted : Json
redacted = text "[redacted]"

abbrev pub omitted_labels : List String
omitted_labels =
    "response" ∷ "reader_response" ∷ "prompt_payloads" ∷ "values" ∷ "forbidden_values_present" ∷ []

abbrev pub assertion_labels : List String
assertion_labels =
    "authorization_assertion" ∷ "ownership_assertion" ∷ "confidentiality_assertion" ∷ []

abbrev pub assertion_outcomes : List String
assertion_outcomes = "passed" ∷ "failed" ∷ "error" ∷ "not_asserted" ∷ []

abbrev pub authorization_values : List String
authorization_values = "allow" ∷ "deny" ∷ "unknown" ∷ "not_applicable" ∷ []

abbrev pub exempt_labels : List String
exempt_labels =
    "credential_profile_fingerprint" ∷ "leaked_environment_variables"
    ∷ "leaked_environment_variable_names" ∷ []

-- item if isinstance(item, str) and item in allowed else "[redacted]"
abbrev pub only : List String → Json → Json
only allowed (text s) = if contains allowed s then text s else redacted
only allowed _ = redacted

-- What stands under a label that is not walked into.
pub data Rule : Type 0 where
  omit_value mask_value walk_value : Rule
  only_values : List String → Rule

module _ (filters : Filters) where
  unfoldable pub rule_of : String → Rule
  rule_of label =
      if contains omitted_labels label
      then omit_value
      else if contains assertion_labels label
      then only_values assertion_outcomes
      else if label == "authorization"
      then only_values authorization_values
      else if filters.sensitive_key label && not (contains exempt_labels label)
      then mask_value
      else walk_value

  abbrev pub apply_rule : Rule → Json → Json → Json
  apply_rule omit_value item walked = omitted
  apply_rule mask_value item walked = redacted
  apply_rule walk_value item walked = walked
  apply_rule (only_values allowed) item walked = only allowed item

  -- for secret in sorted(secrets, key=len, reverse=True)
  abbrev pub longest_first : List String → List String
  longest_first = order_by (λ s t. leb (text_length t) (text_length s))

  unfoldable pub replace_all : List String → String → String
  replace_all [] s = s
  replace_all (secret ∷ secrets) s = replace_all secrets (filters.replace s secret "[redacted]")

  unfoldable pub redact_text : List String → String → String
  unfolding replace_all order_by
  redact_text secrets value =
      let cleaned = replace_all (longest_first secrets) (filters.scrub value) in
      if leb (text_length cleaned) 2048
      then cleaned
      else "[long value omitted from exported evidence]"

  unfoldable mutual
    unfolding redact_text rule_of

    pub redact : List String → Json → Json
    redact secrets (object fs) = object (redact_fields secrets fs)
    redact secrets (array xs) = array (redact_items secrets xs)
    redact secrets (text s) = text (redact_text secrets s)
    redact secrets v = v

    pub redact_items : List String → Items → Items
    redact_items secrets nil = nil
    redact_items secrets (cons x xs) = cons (redact secrets x) (redact_items secrets xs)

    pub redact_fields : List String → Fields → Fields
    redact_fields secrets end = end
    redact_fields secrets (field label item rest) =
        field label (apply_rule (rule_of label) item (redact secrets item))
          (redact_fields secrets rest)

  -- The credentials of one mapping of headers or variables. `bearer` says that the part behind
  -- "Bearer " counts too.
  unfoldable pub credential_values : Bool → List (String × String) → List String
  credential_values bearer [] = []
  credential_values bearer ((name, value) ∷ rest) =
      let later = credential_values bearer rest in
      if filters.sensitive_key name && not (value == "")
      then (if bearer && starts_with (filters.lower value) "bearer "
          then value ∷ filters.skip_seven value ∷ later
          else value ∷ later)
      else later

  -- {**headers, **environment}: a name of both has the second value.
  unfoldable pub merged : List (String × String) → List (String × String) → List (String × String)
  unfolding fetch_all
  merged headers environment =
      fetch_all (λ e. not (contains (names_of environment) e.0)) headers ++ environment

  unfoldable pub identity_secrets : List (String × IdentitySpec) → List String
  unfolding credential_values merged
  identity_secrets [] = []
  identity_secrets ((name, identity) ∷ rest) =
      credential_values true (merged identity.headers identity.environment) ++ identity_secrets rest

  abbrev pub values_or_none : Option (List String) → List String
  values_or_none none = []
  values_or_none (some values) = values

  unfoldable pub probe_values : List (String × TenantProbe) → List String
  probe_values [] = []
  probe_values ((name, probe) ∷ rest) = values_or_none probe.confidentiality ++ probe_values rest

  unfoldable pub protected_values : List (String × ToolContract) → List String
  unfolding probe_values
  protected_values [] = []
  protected_values ((name, tool) ∷ rest) = probe_values tool.tenant_probes ++ protected_values rest

  unfoldable pub contract_secrets : Contract → List String
  unfolding identity_secrets credential_values protected_values fetch_all
  contract_secrets contract =
      fetch_all (λ v. leb 6 (text_length v))
        (identity_secrets contract.identities
          ++ credential_values false contract.server_environment)
      ++ protected_values contract.tools
