-- ===== src/Gate/Matrix.antt =====
-- `_findings` and `_matrix` of assurance/phase2/gate/gate.py: a report's findings against the
-- embedded matrix of expected ones.
pub mod Met
use mcp_behaviour_guard.Prelude.{
  String, Bool, false, ◌||◌, Option, none, some, List, [], ◌∷◌, ◌++◌, if◌then◌else◌, ◌==◌,
}
use Prim.Native.String.{◌++◌ as ◌⧺◌}
use mcp_behaviour_guard.Json.{Json, text, array, object, Items, nil, cons, Fields, end, field, get?}
use mcp_behaviour_guard.SavedRun.Value.{get, json_eq, as_object, as_array}
use mcp_behaviour_guard.Models.{lookup}
use mcp_behaviour_guard.SavedRun.Load.{StoredFile}
use mcp_behaviour_guard.Gate.{load, Checked, refused, crashed, accepted, ◌>>=◌, mapping, is_text}

pub record MatrixAssessment : Type 0 where
  pub block : List String
  pub invalid : List String
  pub review : List String

abbrev pub no_reasons : MatrixAssessment
no_reasons = record { block = []; invalid = []; review = [] }

abbrev blocks : String → MatrixAssessment
blocks message = record no_reasons { block = message ∷ [] }

abbrev invalidates : String → MatrixAssessment
invalidates message = record no_reasons { invalid = message ∷ [] }

abbrev asks_review : String → MatrixAssessment
asks_review message = record no_reasons { review = message ∷ [] }

-- What two steps append, one after the other.
abbrev pub then_reasons : MatrixAssessment → MatrixAssessment → MatrixAssessment
then_reasons first later = record {
  block = first.block ++ later.block;
  invalid = first.invalid ++ later.invalid;
  review = first.review ++ later.review;
}

abbrev named_object : Json → Checked (String × Fields)
named_object (object finding) = elim (get "test_id" finding) [
  | text test_id ↦
      if test_id == ""
      then refused "report finding has invalid test_id"
      else accepted (test_id, finding)
  | _ ↦ refused "report finding has invalid test_id"
]
named_object _ = refused "report contains non-object finding"

-- indexed[test_id] = item, in the order of the report.
abbrev add_finding : List (String × Fields) → String × Fields → Checked (List (String × Fields))
add_finding indexed (test_id, finding) = elim (lookup test_id indexed) [
  | none ↦ accepted (indexed ++ (test_id, finding) ∷ [])
  | some earlier ↦ refused ("duplicate finding id: " ⧺ test_id)
]

unfoldable pub index_findings : List (String × Fields) → Items → Checked (List (String × Fields))
index_findings indexed nil = accepted indexed
index_findings indexed (cons item items) = do
  finding ← named_object item
  found ← add_finding indexed finding
  index_findings found items

unfoldable pub findings : Fields → Checked (List (String × Fields))
unfolding index_findings
findings report = elim (as_array (get "findings" report)) [
  | none ↦ refused "report findings missing"
  | some raw ↦ index_findings [] raw
]

-- status in {"error", "skipped"}, where an unhashable value raises.
abbrev pub is_incomplete : Json → Checked Bool
is_incomplete (array items) = crashed
is_incomplete (object fields) = crashed
is_incomplete status = accepted (is_text "error" status || is_text "skipped" status)

-- A required finding that is there, against its rule.
unfoldable pub compare_rule : String → Fields → Fields → MatrixAssessment
compare_rule test_id rule finding =
    let status = get "status" finding in
    then_reasons
      (if is_text "failed" status
        then blocks ("required finding failed: " ⧺ test_id)
        else if json_eq status (get "status" rule)
        then no_reasons
        else invalidates ("required finding status mismatch: " ⧺ test_id))
      (if json_eq (get "observation" finding) (get "observation" rule)
        then no_reasons
        else invalidates ("required finding observation mismatch: " ⧺ test_id))

unfoldable pub required_finding : List (String × Fields) → String → Json → Checked MatrixAssessment
unfolding compare_rule
required_finding found test_id rule = elim (lookup test_id found) [
  | none ↦ accepted (invalidates ("missing required finding " ⧺ test_id))
  | some finding ↦
      (mapping ("matrix rule is malformed for " ⧺ test_id) rule >>= λ expected.
      accepted (compare_rule test_id expected finding))
]

-- for test_id, rule in required.items()
unfoldable pub required_findings : List (String × Fields) → Fields → Checked MatrixAssessment
unfolding required_finding
required_findings found end = accepted no_reasons
required_findings found (field test_id rule rest) = do
  first ← required_finding found test_id rule
  later ← required_findings found rest
  accepted (then_reasons first later)

-- test_id.endswith(suffix)
unfoldable pub ends_with : String → String → Bool
ends_with suffix String.[] = suffix == ""
ends_with suffix (String.◌∷◌ c s) = String.◌∷◌ c s == suffix || ends_with suffix s

module _ (str : Json → String) where
  -- str(value): a text is its own.
  abbrev pub str_of : Json → String
  str_of (text s) = s
  str_of value = str value

  unfoldable pub has_suffix : Items → String → Bool
  unfolding ends_with
  has_suffix nil test_id = false
  has_suffix (cons suffix suffixes) test_id =
      ends_with (str_of suffix) test_id || has_suffix suffixes test_id

  abbrev conditional_finding : String → Json → Checked MatrixAssessment
  conditional_finding test_id status = is_incomplete status >>= λ incomplete. accepted (
      if incomplete
      then invalidates ("conditional effect finding is incomplete: " ⧺ test_id)
      else if is_text "passed" status
      then no_reasons
      else invalidates ("conditional effect finding has unknown status: " ⧺ test_id))

  abbrev unexpected_finding : String → Json → Checked MatrixAssessment
  unexpected_finding test_id status = is_incomplete status >>= λ incomplete. accepted (
      if incomplete
      then invalidates ("unexpected incomplete finding: " ⧺ test_id)
      else asks_review ("unexpected finding requires review: " ⧺ test_id))

  -- A finding that the matrix does not require.
  unfoldable pub other_finding : Items → String → Json → Checked MatrixAssessment
  unfolding has_suffix
  other_finding suffixes test_id status =
      if has_suffix suffixes test_id
      then (if is_text "failed" status
          then accepted (blocks ("conditional effect finding failed: " ⧺ test_id))
          else conditional_finding test_id status)
      else (if is_text "failed" status
          then accepted (blocks ("unexpected current-contract failure: " ⧺ test_id))
          else unexpected_finding test_id status)

  abbrev unless_required : Option Json → Checked MatrixAssessment → Checked MatrixAssessment
  unless_required (some rule) other = accepted no_reasons
  unless_required none other = other

  -- for test_id, finding in findings.items()
  unfoldable pub other_findings : Fields → Items → List (String × Fields) → Checked MatrixAssessment
  unfolding other_finding
  other_findings required suffixes [] = accepted no_reasons
  other_findings required suffixes ((test_id, finding) ∷ rest) = do
    first ←
        unless_required (get? test_id required)
          (other_finding suffixes test_id (get "status" finding))
    later ← other_findings required suffixes rest
    accepted (then_reasons first later)

  abbrev pub with_matrix : Fields → Option Fields → Option Items → Checked MatrixAssessment
  with_matrix report (some required) (some suffixes) = do
    found ← findings report
    first ← required_findings found required
    later ← other_findings required suffixes found
    accepted (then_reasons first later)
  with_matrix report _ _ = refused "embedded expected-check matrix is malformed"

  -- `_matrix`, with the embedded file.
  unfoldable pub matrix : StoredFile → Fields → Checked MatrixAssessment
  unfolding load findings required_findings other_findings
  matrix expected_checks report = do
    expected ← load expected_checks
    with_matrix report (as_object (get "required_findings" expected))
        (as_array (get "conditional_suffixes" expected))
