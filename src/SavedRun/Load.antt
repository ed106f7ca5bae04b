-- ===== src/SavedRun/Load.antt =====
-- `_load_saved_run` and `_load_json_object` of src/mcp_behaviour_guard/baseline.py, and
-- `compare_saved_runs` from the two directories on. A file is its SHA-256 and what `json.loads` makes
-- of its text; it does not change while it is loaded, and a directory in its place is not modelled.
pub mod Checks
pub mod Digest
use mcp_behaviour_guard.Prelude.{
  ℕ, String, Bool, true, false, ◌&&◌, Option, none, some, List, [], ◌==◌, if◌then◌else◌,
}
use mcp_behaviour_guard.Prelude.Int.{pos}
use mcp_behaviour_guard.Json.{Json, null, integer, text, array, object, Fields}
use mcp_behaviour_guard.SavedRun.Error.{
  Loaded, ok, err, comparison_error, type_error, decode_error, ◌>>=◌, ◌>>◌, require,
}
use mcp_behaviour_guard.SavedRun.Value.{get, json_eq}
use mcp_behaviour_guard.SavedRun.Finding.{SavedFinding, ids, index_saved_findings}
use mcp_behaviour_guard.SavedRun.Conformance.{
  Verdict, fail, inconclusive, not_tested, pass, conformance,
}
use mcp_behaviour_guard.SavedRun.Inventory.{SavedTool, sorted_names, index_saved_tools}
use mcp_behaviour_guard.SavedRun.Compare.{SavedRun, SavedRunDiff, compare_saved_runs}
use mcp_behaviour_guard.SavedRun.Receipt.{
  mapping, texts, are_visible, is_sorted_set, same_texts, validate_receipt_v1,
}

-- What `read_text` and `json.loads` make of a file's bytes.
pub data Content : Type 0 where
  parsed : Json → Content
  not_json not_utf8 : Content

pub data StoredFile : Type 0 where
  absent : StoredFile
  present : String → Content → StoredFile

pub record RunDirectory : Type 0 where
  pub receipt : StoredFile
  pub report : StoredFile
  pub tool_inventory : StoredFile

read_content : Content → Loaded Json
read_content (parsed v) = ok v
read_content not_json = err (comparison_error "is invalid")
read_content not_utf8 = err decode_error

unfoldable pub load_json_object : StoredFile → Loaded Fields
unfolding read_content mapping
load_json_object absent = err (comparison_error "is missing")
load_json_object (present digest content) = do
  payload ← read_content content
  mapping "must be a JSON object" payload

-- file_sha256, after the test that the file is there.
unfoldable pub digest_of : String → StoredFile → Loaded String
digest_of message absent = err (comparison_error message)
digest_of message (present digest content) = ok digest

-- value != n
abbrev pub is_number : ℕ → Json → Bool
is_number n v = json_eq v (integer (pos n))

-- Membership in a frozenset of numbers: an unhashable value raises.
check_version : Json → Loaded (Unit {0})
check_version (array xs) = err type_error
check_version (object fs) = err type_error
check_version v = require (is_number 3 v) "normalization version is unsupported"

is_no_text : Option (List String) → Bool
is_no_text (some []) = true
is_no_text _ = false

check_sensitive : Json → Loaded (Unit {0})
unfolding is_no_text
check_sensitive v = do
  require (are_visible v && is_sorted_set (texts v))
      "receipt normalization.unverified_sensitive_fields is invalid"
  require (is_no_text (texts v))
      "normalization is unsupported because sensitive semantic fields are unverified"

text_or : String → Json → Loaded String
text_or message (text s) = if s == "" then err (comparison_error message) else ok s
text_or message _ = err (comparison_error message)

-- isinstance(ids, list) and all(isinstance(item, str) …), and the texts.
texts_or : String → Option (List String) → Loaded (List String)
texts_or message none = err (comparison_error message)
texts_or message (some names) = ok names

abbrev pub verdict_name : Verdict → String
verdict_name fail = "fail"
verdict_name inconclusive = "inconclusive"
verdict_name not_tested = "not_tested"
verdict_name pass = "pass"

-- The report whose digest the receipt names.
unfoldable pub load_report : Fields → StoredFile → Loaded Fields
unfolding text_or digest_of load_json_object
load_report artifacts report = do
  expected ← text_or "receipt has no report digest" (get "report_json_sha256" artifacts)
  digest ← digest_of "report.json is missing" report
  require (digest == expected) "report digest mismatch"
  load_json_object report

-- The receipt's own schema and normalization.
unfoldable pub check_receipt_schema : Fields → Loaded (Unit {0})
unfolding check_version check_sensitive mapping
check_receipt_schema receipt = do
  require (is_number 1 (get "schema_version" receipt)) "receipt schema is unsupported"
  check_version (get "normalization_version" receipt)
  normalization ← mapping "receipt has no normalization mapping" (get "normalization" receipt)
  check_sensitive (get "unverified_sensitive_fields" normalization)
  require (is_number 2 (get "report_schema_version" receipt)) "report schema is unsupported"

-- The findings of the report are those that the receipt names.
unfoldable pub check_membership : Fields → List SavedFinding → Loaded (Unit {0})
unfolding mapping texts_or same_texts sorted_names
check_membership receipt findings = do
  checks ← mapping "receipt has no checks mapping" (get "checks" receipt)
  names ← texts_or "receipt finding membership is invalid" (texts (get "finding_ids" checks))
  require (same_texts (sorted_names names) (sorted_names (ids findings)))
      "receipt finding membership does not match report"

-- What the receipt and the report both say must agree.
unfoldable pub check_agreement : Fields → Fields → List SavedFinding → Loaded (Unit {0})
unfolding mapping validate_receipt_v1 conformance
check_agreement receipt report findings = do
  run ← mapping "receipt is missing run/context/runner mappings" (get "run" receipt)
  context ← mapping "receipt is missing run/context/runner mappings" (get "context" receipt)
  runner ← mapping "receipt is missing run/context/runner mappings" (get "runner" receipt)
  validate_receipt_v1 receipt
  require (json_eq (get "completion" run) (text "completed")) "receipt is not a completed run"
  require (json_eq (get "run_id" run) (get "run_id" report))
      "receipt run identity does not match report"
  require (json_eq (get "logical_target" context) (get "target" report))
      "receipt target identity does not match report"
  require (json_eq (get "mcp_sdk_version" runner) (get "sdk_version" report))
      "receipt mcp_sdk_version does not match report"
  require (json_eq (get "transport" runner) (get "transport" report))
      "receipt transport does not match report"
  require (json_eq (get "state_strategy" runner) (get "state_strategy" report))
      "receipt state_strategy does not match report"
  require (json_eq (get "assessment" report) (text (verdict_name (conformance findings))))
      "report assessment does not match finding statuses"

read_file : StoredFile → Loaded Json
unfolding read_content
read_file absent = err (comparison_error "tool-inventory.json is missing")
read_file (present digest content) = read_content content

-- The inventory that the receipt names, if it names one, and whether it does.
unfoldable pub load_inventory : Json → StoredFile → Loaded (List SavedTool × Bool)
unfolding text_or digest_of read_file index_saved_tools
load_inventory null inventory = ok ([], false)
load_inventory declared inventory = do
  expected ← text_or "tool inventory digest is invalid" declared
  digest ← digest_of "tool-inventory.json is missing" inventory
  require (digest == expected) "tool inventory digest mismatch"
  payload ← read_file inventory
  tools ← index_saved_tools payload
  ok (tools, true)

unfoldable pub load_saved_run : RunDirectory → Loaded SavedRun
unfolding load_json_object check_receipt_schema mapping load_report index_saved_findings
    check_membership check_agreement load_inventory digest_of
load_saved_run root = do
  receipt ← load_json_object root.receipt
  check_receipt_schema receipt
  artifacts ← mapping "receipt has no artifacts mapping" (get "artifacts" receipt)
  report ← load_report artifacts root.report
  require (is_number 2 (get "schema_version" report)) "report schema is unsupported"
  findings ← index_saved_findings report
  check_membership receipt findings
  check_agreement receipt report findings
  (tools, available) ← load_inventory (get "tool_inventory_sha256" artifacts) root.tool_inventory
  digest ← digest_of "is missing" root.receipt
  ok (record {
    receipt = receipt;
    receipt_sha256 = digest;
    report = report;
    findings = findings;
    tools = tools;
    tool_inventory_available = available;
  })

-- The whole of `compare_saved_runs`.
unfoldable pub compare_directories :
    (Json → String) → RunDirectory → RunDirectory → Loaded SavedRunDiff
unfolding load_saved_run compare_saved_runs
compare_directories stable_hash reference candidate = do
  r ← load_saved_run reference
  c ← load_saved_run candidate
  ok (compare_saved_runs stable_hash r c)
