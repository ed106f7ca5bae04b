-- ===== src/SavedRun/Receipt.antt =====
-- `_validate_receipt_v1` of src/mcp_behaviour_guard/baseline.py: the fields that a receipt of schema
-- 1 must have, and their forms.
pub mod Known
use mcp_behaviour_guard.Prelude.{
  String, Bool, true, false, ◌&&◌, ◌||◌, Option, none, some, List, [], ◌∷◌, ◌==◌,
}
use mcp_behaviour_guard.Json.{Json, null, text, array, object, Items, nil, cons, Fields, get?}
use mcp_behaviour_guard.SavedRun.Error.{Loaded, ok, err, comparison_error, ◌>>=◌, ◌>>◌, require}
use mcp_behaviour_guard.SavedRun.Value.{get, is_null, is_nonempty_text, is_visible_text}
use mcp_behaviour_guard.SavedRun.Comparability.{sorted_set}

has_key : Option Json → Bool
has_key none = false
has_key (some v) = true

-- The first missing key raises.
unfoldable pub require_keys : List String → Fields → Loaded (Unit {0})
unfolding has_key
require_keys [] section = ok tt
require_keys (key ∷ keys) section = do
  require (has_key (get? key section)) "receipt missing required field"
  require_keys keys section

-- A section that is a mapping.
unfoldable pub mapping : String → Json → Loaded Fields
mapping message (object fs) = ok fs
mapping message _ = err (comparison_error message)

-- The fields that must be non-empty texts.
unfoldable pub require_texts : List String → Fields → Loaded (Unit {0})
require_texts [] section = ok tt
require_texts (key ∷ keys) section = do
  require (is_nonempty_text (get key section)) "receipt field must be a non-empty string"
  require_texts keys section

-- The fields that must be null or texts that are not blank.
unfoldable pub require_optional_texts : List String → Fields → Loaded (Unit {0})
require_optional_texts [] section = ok tt
require_optional_texts (key ∷ keys) section = do
  require (is_null (get key section) || is_visible_text (get key section))
      "receipt field must be a non-empty string or null"
  require_optional_texts keys section

cons_text : Json → Option (List String) → Option (List String)
cons_text (text s) (some rest) = some (s ∷ rest)
cons_text _ _ = none

-- isinstance(v, list) and all(isinstance(item, str) for item in v), and the texts.
unfoldable pub texts_of : Items → Option (List String)
unfolding cons_text
texts_of nil = some []
texts_of (cons v rest) = cons_text v (texts_of rest)

abbrev pub texts : Json → Option (List String)
texts (array items) = texts_of items
texts _ = none

unfoldable pub all_visible : Items → Bool
all_visible nil = true
all_visible (cons v rest) = is_visible_text v && all_visible rest

abbrev pub are_visible : Json → Bool
are_visible (array items) = all_visible items
are_visible _ = false

-- a == b, on lists of texts.
unfoldable pub same_texts : List String → List String → Bool
same_texts [] [] = true
same_texts [] (y ∷ ys) = false
same_texts (x ∷ xs) [] = false
same_texts (x ∷ xs) (y ∷ ys) = x == y && same_texts xs ys

-- names == sorted(set(names))
abbrev pub is_sorted_set : Option (List String) → Bool
is_sorted_set none = false
is_sorted_set (some names) = same_texts names (sorted_set names)

abbrev is_nonempty : Option (List String) → Bool
is_nonempty (some (x ∷ xs)) = true
is_nonempty _ = false

pub check_protocol_versions : Json → Loaded (Unit {0})
unfolding same_texts sorted_set texts_of all_visible
check_protocol_versions null = ok tt
check_protocol_versions v = do
  require (is_nonempty (texts v) && are_visible v)
      "receipt field runner.protocol_versions must be a non-empty string list or null"
  require (is_sorted_set (texts v))
      "receipt field runner.protocol_versions must be sorted and duplicate-free"

abbrev pub sections_message : String
sections_message = "receipt required sections must be mappings"

unfoldable pub validate_receipt_v1 : Fields → Loaded (Unit {0})
unfolding require_keys mapping require_texts require_optional_texts check_protocol_versions
validate_receipt_v1 receipt = do
  require_keys ("run" ∷ "context" ∷ "runner" ∷ "checks" ∷ "artifacts" ∷ []) receipt
  run ← mapping sections_message (get "run" receipt)
  context ← mapping sections_message (get "context" receipt)
  runner ← mapping sections_message (get "runner" receipt)
  checks ← mapping sections_message (get "checks" receipt)
  artifacts ← mapping sections_message (get "artifacts" receipt)
  require_keys ("run_id" ∷ "attempt_id" ∷ "started_at" ∷ "finished_at" ∷ "completion" ∷ []) run
  require_keys
      ("logical_target" ∷ "deployment_identity" ∷ "credential_principal" ∷ "contract_source_sha256"
        ∷ "target_input_sha256" ∷ "effective_policy_sha256" ∷ "identity_profile_sha256"
        ∷ "observer_scope_sha256" ∷ "fixture_profile" ∷ [])
      context
  require_keys
      ("version" ∷ "mcp_sdk_version" ∷ "transport" ∷ "state_strategy" ∷ "protocol_versions" ∷ [])
      runner
  require_keys ("finding_ids" ∷ "definition_sha256" ∷ []) checks
  require_keys ("report_json_sha256" ∷ "tool_inventory_sha256" ∷ []) artifacts
  require_texts
      ("contract_source_sha256" ∷ "target_input_sha256" ∷ "effective_policy_sha256"
        ∷ "identity_profile_sha256" ∷ "observer_scope_sha256" ∷ [])
      context
  require_texts ("logical_target" ∷ []) context
  require_optional_texts ("deployment_identity" ∷ "credential_principal" ∷ []) context
  mapping "receipt field context.fixture_profile must be a mapping" (get "fixture_profile" context)
  require_texts ("version" ∷ []) runner
  require_optional_texts ("mcp_sdk_version" ∷ "transport" ∷ "state_strategy" ∷ []) runner
  check_protocol_versions (get "protocol_versions" runner)
  require_texts ("definition_sha256" ∷ []) checks
