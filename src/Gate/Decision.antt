-- ===== src/Gate/Decision.antt =====
-- The parts of `_evaluate` of assurance/phase2/gate/gate.py: what it collects, its arguments, and the
-- decision's outcome. The labels of `source_validation` repeat the errors and are not modelled.
use mcp_behaviour_guard.Prelude.{
  String, Bool, true, false, not, ◌||◌, Option, none, some, List, [], ◌∷◌, ◌++◌, if◌then◌else◌,
  is_empty, map,
}
use Prim.Native.String.{◌++◌ as ◌⧺◌}
use mcp_behaviour_guard.Json.{Json, Fields, end, field}
use mcp_behaviour_guard.SavedRun.Value.{get, json_eq}
use mcp_behaviour_guard.SavedRun.Error.{Loaded, ok, err, comparison_error}
use mcp_behaviour_guard.SavedRun.Load.{StoredFile, absent, present, RunDirectory}
use mcp_behaviour_guard.SavedRun.Compare.{SavedRunDiff}
use mcp_behaviour_guard.SavedRun.Conformance.{Verdict, pass, fail}
use mcp_behaviour_guard.SavedRun.Comparability.{
  ComparisonState, unsupported, changed_context, comparable,
}
use mcp_behaviour_guard.Gate.{Checked, refused, crashed, accepted, is_text, unless}
use mcp_behaviour_guard.Gate.Snapshot.{is_true_value}

pub data GateOutcome : Type 0 where
  pass_outcome block_outcome review_outcome invalid_outcome : GateOutcome

pub record EvaluateArgs : Type 0 where
  pub policy : StoredFile
  pub approval : StoredFile
  pub reference_dir : RunDirectory
  pub reference_context : StoredFile
  pub reference_final : StoredFile
  pub candidate_dir : RunDirectory
  pub candidate_context : StoredFile
  pub candidate_final : StoredFile
  pub selected_approval_digest : String
  pub expected_attempt_id : String
  pub expected_candidate_image : String
  pub expected_candidate_mode : String
  pub selected_gate_image : String

pub data GateViolation : Type 0 where
  audit_event : Fields → GateViolation
  guard_reason comparator_reason : String → GateViolation

pub record Authority : Type 0 where
  pub policy : Fields
  pub policy_digest : String
  pub approval : Fields
  pub errors : List String

pub record Binding : Type 0 where
  pub context : Fields
  pub errors : List String

pub record Evidence : Type 0 where
  pub confirmed_violations : List GateViolation
  pub completion_invalid : List String
  pub review_reasons : List String

pub record Decision : Type 0 where
  pub outcome : GateOutcome
  pub authority_errors : List String
  pub binding_errors : List String
  pub evidence : Evidence

abbrev pub no_evidence : Evidence
no_evidence = record { confirmed_violations = []; completion_invalid = []; review_reasons = [] }

abbrev pub incomplete : List String → Evidence
incomplete messages = record no_evidence { completion_invalid = messages }

-- What two steps append, one after the other.
infixr 4 ◌⊕◌
abbrev pub ◌⊕◌ : Evidence → Evidence → Evidence
first ⊕ later = record {
  confirmed_violations = first.confirmed_violations ++ later.confirmed_violations;
  completion_invalid = first.completion_invalid ++ later.completion_invalid;
  review_reasons = first.review_reasons ++ later.review_reasons;
}

abbrev pub labelled : String → List String → List String
labelled source = map λ message. source ⧺ (": " ⧺ message)

-- except GateError as exc: errors.append(str(exc))
abbrev pub error_list : Checked (List String) → Checked (List String)
error_list (refused message) = accepted (message ∷ [])
error_list crashed = crashed
error_list (accepted errors) = accepted errors

abbrev pub caught : String → Checked Evidence → Checked Evidence
caught source (refused message) = accepted (incomplete (labelled source (message ∷ [])))
caught source crashed = crashed
caught source (accepted evidence) = accepted evidence

abbrev pub when : Bool → Checked Evidence → Checked Evidence
when true step = step
when false step = accepted no_evidence

abbrev pub digest_or : String → StoredFile → String
digest_or missing absent = missing
digest_or missing (present digest content) = digest

abbrev pub is_nonempty : Fields → Bool
is_nonempty end = false
is_nonempty (field key value rest) = true

-- The policy, or the error and the digest of its file.
abbrev pub policy_part :
    StoredFile → Checked (Fields × String) → Checked ((Fields × String) × List String)
policy_part policy_file (accepted policy) = accepted (policy, [])
policy_part policy_file (refused message) =
    accepted ((end, digest_or "unavailable" policy_file), message ∷ [])
policy_part policy_file crashed = crashed

abbrev pub approval_part : Checked Fields → String → Checked (Fields × List String)
approval_part (refused message) policy_digest = accepted (end, message ∷ [])
approval_part crashed policy_digest = crashed
approval_part (accepted approval) policy_digest = accepted (
  approval,
  unless
      (not (is_nonempty approval) || is_text policy_digest (get "policy_profile_digest" approval))
      "approval bundle selects a different policy profile",
)

-- The rest runs only if nothing is wrong so far.
abbrev pub if_clean : List String → Checked (List String) → Checked (List String)
if_clean [] later = error_list later
if_clean (e ∷ errors) later = accepted (e ∷ errors)

abbrev pub same_attempt : Fields → Option Fields → Bool
same_attempt context none = false
same_attempt context (some reference) =
    json_eq (get "attempt_id" context) (get "origin_attempt_id" reference)

abbrev pub mismatch : List (String × Json) → Fields → List String
mismatch [] approved = []
mismatch ((key, value) ∷ rest) approved =
    unless (json_eq value (get key approved)) ("candidate/reference compatibility mismatch: " ⧺ key)
    ++ mismatch rest approved

abbrev pub receipt_errors : List (String × Json) → Option Fields → List String
receipt_errors compatibility none = "approval compatibility mapping missing" ∷ []
receipt_errors compatibility (some approved) = mismatch compatibility approved

-- The candidate's conformance.
abbrev pub conformance_evidence : Verdict → Evidence
conformance_evidence pass = no_evidence
conformance_evidence fail = record no_evidence {
  confirmed_violations = comparator_reason "candidate current conformance failed" ∷ [];
}
conformance_evidence _ = incomplete ("candidate conformance is not pass" ∷ [])

abbrev pub state_evidence : ComparisonState → Evidence
state_evidence comparable = no_evidence
state_evidence unsupported = incomplete ("saved-run comparison is unsupported" ∷ [])
state_evidence changed_context = record no_evidence {
  review_reasons = "saved-run comparison reports changed context" ∷ [];
}

unfoldable pub diff_evidence : SavedRunDiff → Evidence
diff_evidence diff =
    conformance_evidence diff.candidate_conformance
    ⊕ (if is_empty diff.new_failures then no_evidence else record no_evidence {
      confirmed_violations = comparator_reason "new failed findings vs approved reference" ∷ [];
    })
    ⊕ incomplete (unless (is_empty diff.new_errors) "candidate introduced new error findings")
    ⊕ incomplete (unless (not diff.coverage_regression) "candidate evidence coverage regressed")
    ⊕ state_evidence diff.comparability.state
    ⊕ (record no_evidence {
      review_reasons =
          unless (not diff.capabilities.review_required)
            "capability/schema comparison requires review";
    })

unfoldable pub comparator_evidence : Loaded SavedRunDiff → Evidence
unfolding diff_evidence
comparator_evidence (ok diff) = diff_evidence diff
comparator_evidence (err (comparison_error message)) =
    incomplete ("saved-run comparator rejected evidence" ∷ [])
comparator_evidence (err _) = incomplete ("saved-run comparator internal error" ∷ [])

-- The trusted harness's word on the attempt.
unfoldable pub finalization_evidence : Fields → Evidence
finalization_evidence context = incomplete (
    unless (is_text "finalized" (get "attempt_completion" context))
      "trusted attempt finalization is incomplete"
    ++ unless (is_true_value (get "cleanup_complete" context))
        "trusted runtime cleanup is incomplete")

unfoldable pub outcome_of : List String → List String → Evidence → GateOutcome
outcome_of authority_errors binding_errors evidence =
    if not (is_empty authority_errors) || not (is_empty binding_errors)
    then invalid_outcome
    else if not (is_empty evidence.confirmed_violations)
    then block_outcome
    else if not (is_empty evidence.completion_invalid)
    then invalid_outcome
    else if not (is_empty evidence.review_reasons)
    then review_outcome
    else pass_outcome
