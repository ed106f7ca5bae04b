-- ===== src/SavedRun/Finding.antt =====
-- The findings of a saved report, `_index_saved_findings` and the two rank functions of
-- src/mcp_behaviour_guard/baseline.py. An indexed finding keeps the four fields that the comparison
-- reads; its index is the list of the findings, in the order of the dictionary.
pub mod Index
use mcp_behaviour_guard.Prelude.{
  ℕ, String, Bool, true, false, not, Option, none, some, List, [], ◌∷◌, ◌++◌, map, contains, ◌==◌,
  ltb, if◌then◌else◌,
}
use mcp_behaviour_guard.Prelude.Table.{fetch_one}
use mcp_behaviour_guard.Json.{Json, text, array, object, Items, nil, cons, Fields}
use mcp_behaviour_guard.SavedRun.Error.{
  Loaded, ok, err, comparison_error, type_error, ◌>>=◌, ◌>>◌, require,
}
use mcp_behaviour_guard.SavedRun.Value.{get}

pub data Status : Type 0 where
  passed failed error skipped : Status

pub data Severity : Type 0 where
  critical high medium low info : Severity

pub data Observation : Type 0 where
  complete partial unavailable not_required : Observation

pub record SavedFinding : Type 0 where
  pub test_id : String
  pub status : Status
  pub severity : Severity
  pub observation : Observation

-- A value in a set of texts: an unhashable one raises.
unfoldable pub in_set : {A : Type 0} → (String → Option A) → String → Json → Loaded A
in_set members message (text s) = elim (members s) [
  | none ↦ err (comparison_error message)
  | some a ↦ ok a
]
in_set members message (array xs) = err type_error
in_set members message (object fs) = err type_error
in_set members message _ = err (comparison_error message)

abbrev pub status_of : String → Option Status
status_of s =
    if s == "passed"
    then some passed
    else if s == "failed"
    then some failed
    else if s == "error"
    then some error
    else if s == "skipped"
    then some skipped
    else none

abbrev pub severity_of : String → Option Severity
severity_of s =
    if s == "critical"
    then some critical
    else if s == "high"
    then some high
    else if s == "medium"
    then some medium
    else if s == "low"
    then some low
    else if s == "info"
    then some info
    else none

abbrev pub observation_of : String → Option Observation
observation_of s =
    if s == "complete"
    then some complete
    else if s == "partial"
    then some partial
    else if s == "unavailable"
    then some unavailable
    else if s == "not_required"
    then some not_required
    else none

abbrev pub ids : List SavedFinding → List String
ids = map (λ f. f.test_id)

-- isinstance(v, str) and v, as a text.
unfoldable pub nonempty : String → Json → Loaded String
nonempty message (text s) = if s == "" then err (comparison_error message) else ok s
nonempty message _ = err (comparison_error message)

unfoldable pub read_finding : List SavedFinding → Json → Loaded SavedFinding
unfolding in_set nonempty
read_finding findings (object raw) = do
  test_id ← nonempty "report contains a finding without test_id" (get "test_id" raw)
  require (not (contains (ids findings) test_id)) "report contains duplicate finding id"
  status ← in_set status_of "finding has unsupported status" (get "status" raw)
  severity ← in_set severity_of "finding has unsupported severity" (get "severity" raw)
  observation ← in_set observation_of "finding has unsupported observation" (get "observation" raw)
  ok (record { test_id = test_id; status = status; severity = severity; observation = observation })
read_finding findings _ = err (comparison_error "report contains a malformed finding")

-- The loop: a new key goes behind the others.
unfoldable pub index_from : List SavedFinding → Items → Loaded (List SavedFinding)
unfolding read_finding
index_from findings nil = ok findings
index_from findings (cons raw rest) = do
  finding ← read_finding findings raw
  index_from (findings ++ finding ∷ []) rest

unfoldable pub index_items : Json → Loaded (List SavedFinding)
unfolding index_from
index_items (array items) = index_from [] items
index_items _ = err (comparison_error "report findings must be a list")

unfoldable pub index_saved_findings : Fields → Loaded (List SavedFinding)
unfolding index_items
index_saved_findings report = index_items (get "findings" report)

-- findings.get(test_id)
abbrev pub find : String → List SavedFinding → Option SavedFinding
find test_id findings = fetch_one (λ f. f.test_id == test_id) findings

unfoldable pub severity_rank : Severity → ℕ
severity_rank critical = 0
severity_rank high = 1
severity_rank medium = 2
severity_rank low = 3
severity_rank info = 4

observation_rank : Observation → ℕ
observation_rank unavailable = 0
observation_rank partial = 1
observation_rank _ = 2

-- _observation_regressed, of the two ends of a change.
unfoldable pub observation_regressed : Observation → Observation → Bool
unfolding observation_rank
observation_regressed not_required partial = true
observation_regressed not_required unavailable = true
observation_regressed not_required _ = false
observation_regressed _ not_required = true
observation_regressed before after = ltb (observation_rank after) (observation_rank before)
