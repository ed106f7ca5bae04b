-- ===== src/Gate/Evaluate.antt =====
-- `_evaluate` of assurance/phase2/gate/gate.py: the decision on a candidate. The labels of
-- `source_validation` repeat the errors and are not modelled, nor is `_publish`, which writes the
-- decision.
use mcp_behaviour_guard.Prelude.{
  String, not, ◌&&◌, Option, none, some, List, [], ◌∷◌, ◌++◌, if◌then◌else◌, ◌==◌, is_empty, map,
}
use mcp_behaviour_guard.Json.{Json, text, Fields, end}
use mcp_behaviour_guard.SavedRun.Value.{get, as_object}
use mcp_behaviour_guard.SavedRun.Load.{compare_directories}
use mcp_behaviour_guard.Gate.{
  Checked, refused, crashed, accepted, ◌>>=◌, unless, load, Embedded, validate_policy,
}
use mcp_behaviour_guard.Gate.Matrix.{matrix, str_of}
use mcp_behaviour_guard.Gate.Snapshot.{validate_snapshot}
use mcp_behaviour_guard.Gate.Scan.{SnapshotAssessment}
use mcp_behaviour_guard.Gate.Context.{
  Expected, validate_context_core, verify_reference, source_digest_errors, digest_in,
  receipt_compatibility,
}
use mcp_behaviour_guard.Gate.Decision.{
  Authority, Binding, Decision, EvaluateArgs, Evidence, approval_part, caught, comparator_evidence,
  digest_or, error_list, finalization_evidence, if_clean, incomplete, labelled, no_evidence,
  outcome_of, policy_part, receipt_errors, same_attempt, when, ◌⊕◌, audit_event, guard_reason,
}

module _ (stable_hash str : Json → String) (embedded : Embedded) (args : EvaluateArgs) where
  -- The policy, the approval and the approved reference.
  unfoldable pub check_authority : Checked Authority
  unfolding validate_policy load verify_reference
  check_authority = do
    ((policy, policy_digest), policy_errors) ←
        policy_part args.policy (validate_policy embedded args.policy args.selected_gate_image)
    (approval, approval_errors) ← approval_part (load args.approval) policy_digest
    let early =
        policy_errors
        ++ (unless (digest_or "missing" args.approval == args.selected_approval_digest)
              "selected approval bundle digest mismatch"
            ++ approval_errors)
    errors ← if_clean early (
        verify_reference (as_object (get "reference" approval)) args.reference_dir
          args.reference_context args.reference_final)
    accepted (record {
      policy = policy;
      policy_digest = policy_digest;
      approval = approval;
      errors = errors;
    })

  abbrev pub expected : Expected
  expected = record {
    attempt_id = text args.expected_attempt_id;
    candidate_image = text args.expected_candidate_image;
    candidate_mode = text args.expected_candidate_mode;
  }

  -- The errors of the context, and that its attempt is not the reference's.
  abbrev pub context_errors : Authority → Fields → Checked (List String)
  context_errors authority context = do
    errors ←
        validate_context_core context authority.policy args.candidate_context
          authority.policy_digest expected
    accepted (
        errors
        ++ unless (not (same_attempt context (as_object (get "reference" authority.approval))))
            "candidate attempt reuses the approved reference attempt")

  abbrev pub bind_context : Authority → Checked Fields → Checked Binding
  bind_context authority (refused message) =
      accepted (record { context = end; errors = message ∷ [] })
  bind_context authority crashed = crashed
  bind_context authority (accepted context) = do
    errors ← error_list (context_errors authority context)
    accepted (record { context = context; errors = errors })

  -- The execution context of the candidate.
  unfoldable pub check_binding : Authority → Checked Binding
  unfolding validate_context_core load
  check_binding authority = bind_context authority (load args.candidate_context)

  module _ (context : Fields) where
    abbrev pub final_errors : List String
    final_errors =
        source_digest_errors "final_snapshot_sha256"
          (digest_in (get "final_snapshot_sha256" context)) "candidate final snapshot"
          args.candidate_final

    abbrev pub report_errors : List String
    report_errors =
        source_digest_errors "report_json_sha256" (digest_in (get "report_json_sha256" context))
          "candidate report" args.candidate_dir.report

    abbrev pub receipt_file_errors : List String
    receipt_file_errors =
        source_digest_errors "receipt_json_sha256" (digest_in (get "receipt_json_sha256" context))
          "candidate receipt" args.candidate_dir.receipt

    abbrev pub inventory_errors : List String
    inventory_errors =
        source_digest_errors "tool_inventory_sha256"
          (digest_in (get "tool_inventory_sha256" context)) "candidate tool inventory"
          args.candidate_dir.tool_inventory

    abbrev pub assessed : SnapshotAssessment → Evidence
    assessed assessment = record {
      confirmed_violations = map audit_event assessment.violations;
      completion_invalid =
          labelled "final_snapshot"
            (assessment.attribution_invalid ++ assessment.completion_invalid);
      review_reasons = if is_empty assessment.attribution_invalid then assessment.review else [];
    }

    unfoldable pub snapshot_evidence : Checked Evidence
    unfolding load validate_snapshot
    snapshot_evidence = caught "final_snapshot" (
        load args.candidate_final >>= λ snapshot.
        accepted (assessed (validate_snapshot snapshot (str_of str (get "attempt_id" context)))))

    unfoldable pub report_evidence : Checked Evidence
    unfolding load matrix
    report_evidence = caught "guard_report" (
        load args.candidate_dir.report >>= λ report.
        matrix str embedded.expected_checks report >>= λ found. accepted (record {
          confirmed_violations = map guard_reason found.block;
          completion_invalid = labelled "guard_report" found.invalid;
          review_reasons = found.review;
        }))

    unfoldable pub receipt_evidence : Option Fields → Checked Evidence
    unfolding receipt_compatibility
    receipt_evidence approved_compatibility = caught "receipt" (
        receipt_compatibility args.candidate_dir >>= λ compatibility.
        accepted
          (incomplete (labelled "receipt" (receipt_errors compatibility approved_compatibility))))

    abbrev pub compared : Evidence
    compared =
        comparator_evidence (compare_directories stable_hash args.reference_dir args.candidate_dir)

    -- `reference.get("compatibility")`
    abbrev pub compatibility_of : Option Fields → Option Fields
    compatibility_of none = none
    compatibility_of (some reference) = as_object (get "compatibility" reference)

    -- Each source counts only if its digest is the one that the context names.
    unfoldable pub collect_evidence : Fields → Checked Evidence
    unfolding snapshot_evidence report_evidence receipt_evidence comparator_evidence
        compare_directories finalization_evidence source_digest_errors
    collect_evidence approval = do
      let digests = incomplete (
          labelled "final_snapshot" final_errors
          ++ (labelled "guard_report" report_errors
              ++ (labelled "receipt" receipt_file_errors
                  ++ labelled "tool_inventory" inventory_errors)))
      snapshot ← when (is_empty final_errors) snapshot_evidence
      report ← when (is_empty report_errors) report_evidence
      receipt ←
          when (is_empty receipt_file_errors)
            (receipt_evidence (compatibility_of (as_object (get "reference" approval))))
      let bound =
          is_empty report_errors && (is_empty receipt_file_errors && is_empty inventory_errors)
      comparison ← when bound (accepted compared)
      accepted (digests ⊕ snapshot ⊕ report ⊕ receipt ⊕ comparison ⊕ finalization_evidence context)

  abbrev pub decide : Authority → Binding → Evidence → Decision
  decide authority binding evidence = record {
    outcome = outcome_of authority.errors binding.errors evidence;
    authority_errors = authority.errors;
    binding_errors = binding.errors;
    evidence = evidence;
  }

  abbrev pub no_binding : Binding
  no_binding = record { context = end; errors = [] }

  abbrev pub bound_decision : Authority → Binding → Checked Decision
  bound_decision authority binding =
      if is_empty binding.errors
      then (collect_evidence binding.context authority.approval >>= λ evidence.
          accepted (decide authority binding evidence))
      else accepted (decide authority binding no_evidence)

  abbrev pub authorised_decision : Authority → Checked Decision
  authorised_decision authority =
      if is_empty authority.errors
      then (check_binding authority >>= bound_decision authority)
      else accepted (decide authority no_binding no_evidence)

  unfoldable pub evaluate : Checked Decision
  unfolding check_authority check_binding collect_evidence outcome_of
  evaluate = check_authority >>= authorised_decision
