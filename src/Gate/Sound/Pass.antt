-- ===== src/Gate/Sound/Pass.antt =====
-- From a PASS of assurance/phase2/gate/gate.py to what the gate has made sure of.
use mcp_behaviour_guard.Prelude.{
  ◌&&◌, String, true, false, ◌≡◌, refl, [], ◌++◌, arith, sym, ◌∙◌, ap, is_empty, Bool-cases, inl,
  inr, ◌≢◌,
}
use mcp_behaviour_guard.Json.{Json, Fields}
use mcp_behaviour_guard.Gate.{accepted, Embedded}
use mcp_behaviour_guard.Gate.Sound.{IsReleasable, authority_parts, binding_parts, subject_parts}
use mcp_behaviour_guard.Gate.Evaluate.{
  evaluate, bound_decision, collect_evidence, check_authority, check_binding, authorised_decision,
  final_errors, report_errors, receipt_file_errors, inventory_errors, snapshot_evidence,
  report_evidence, compared, receipt_evidence, compatibility_of,
}
use mcp_behaviour_guard.Gate.Decision.{pass_outcome}
use mcp_behaviour_guard.Gate.Decision.{
  Evidence, EvaluateArgs, Authority, Binding, Decision, no_evidence, labelled,
  finalization_evidence, incomplete, when, ◌⊕◌,
}
use mcp_behaviour_guard.Gate.Sound.Silent.{
  IsSilent, snapshot-IsSilent, ⊕-IsSilent, report-IsSilent, finalization-IsSilent,
  comparator-IsSilent,
}
use mcp_behaviour_guard.Gate.Sound.Parts.{
  is_empty-eq, accepted_step, pass_parts, accepted-injective, IsNamed, source_digest_errors-nil,
  map-nil, digest_in-text, when-true,
}
use mcp_behaviour_guard.SavedRun.Load.{StoredFile}
use mcp_behaviour_guard.Gate.Context.{source_digest_errors, digest_in}
use mcp_behaviour_guard.SavedRun.Value.{get, as_object}
use mcp_behaviour_guard.Gate.Snapshot.Ledger.{append-nil}

true-ne-false : true ≢ false
true-ne-false h = ground arith

is_empty-IsSilent :
    (e : Evidence)
    → is_empty e.confirmed_violations ≡ true
    → is_empty e.completion_invalid ≡ true
    → is_empty e.review_reasons ≡ true
    → IsSilent e
is_empty-IsSilent e v c r = (is_empty-eq _ v, is_empty-eq _ c, is_empty-eq _ r)

module _ (stable_hash str : Json → String) (embedded : Embedded) (args : EvaluateArgs) where
  -- A decision to pass comes from the last line: nothing was wrong with the authority, the binding
  -- or the evidence.
  bound_pass :
      (authority : Authority) (binding : Binding) (d : Decision)
      → bound_decision stable_hash str embedded args authority binding ≡ accepted d
      → d.outcome ≡ pass_outcome
      → (evidence : Evidence) × (is_empty binding.errors ≡ true)
        × (collect_evidence stable_hash str embedded args binding.context authority.approval
            ≡ accepted evidence)
        × IsSilent evidence
  bound_pass authority binding d h passed = elim (Bool-cases (is_empty binding.errors)) [
    | inl clean ↦
        let (evidence, collected, last) =
          accepted_step
            (collect_evidence stable_hash str embedded args binding.context authority.approval) _ d
            (rw clean at h) in
        let (_, _, v, c, r) =
          pass_parts authority.errors binding.errors evidence
            (ap (λ x. x.outcome) (accepted-injective _ d last) ∙ passed) in
        (evidence, clean, collected, is_empty-IsSilent evidence v c r)
    | inr wrong ↦
        let (_, clean, _, _, _) =
          pass_parts authority.errors binding.errors no_evidence
            (ap (λ x. x.outcome) (accepted-injective _ d (rw wrong at h)) ∙ passed) in
        absurd (ground arith)
  ]

  authorised_pass :
      (authority : Authority) (d : Decision)
      → authorised_decision stable_hash str embedded args authority ≡ accepted d
      → d.outcome ≡ pass_outcome
      → (binding : Binding) × (evidence : Evidence) × (authority.errors ≡ [])
        × (check_binding stable_hash str embedded args authority ≡ accepted binding)
        × (binding.errors ≡ [])
        × (collect_evidence stable_hash str embedded args binding.context authority.approval
            ≡ accepted evidence)
        × IsSilent evidence
  authorised_pass authority d h passed = elim (Bool-cases (is_empty authority.errors)) [
    | inl clean ↦
        let (binding, bound, last) =
          accepted_step (check_binding stable_hash str embedded args authority) _ d
            (rw clean at h) in
        let (evidence, unbound, collected, silent) = bound_pass authority binding d last passed in
        (binding, evidence, is_empty-eq _ clean, bound, is_empty-eq _ unbound, collected, silent)
    | inr wrong ↦
        let (clean, _, _, _, _) =
          pass_parts authority.errors [] no_evidence
            (ap (λ x. x.outcome) (accepted-injective _ d (rw wrong at h)) ∙ passed) in
        absurd (true-ne-false (sym clean ∙ wrong))
  ]

  -- The evidence of a bound context that is silent.
  record-IsNamed :
      (context : Fields) (source key label : String) (file : StoredFile)
      → labelled source (source_digest_errors key (digest_in (get key context)) label file) ≡ []
      → IsNamed context key file
  record-IsNamed context source key label file h =
      let (digest, content, named, there) =
        source_digest_errors-nil key (digest_in (get key context)) label file (map-nil _ _ h) in
      (digest, content, digest_in-text (get key context) digest named, there)

  module _ (context approval : Fields) (evidence : Evidence)
      (collected : collect_evidence stable_hash str embedded args context approval
        ≡ accepted evidence)
      (silent : IsSilent evidence) where
    evidence_parts :
        (final_errors stable_hash str embedded args context ≡ [])
        × (report_errors stable_hash str embedded args context ≡ [])
        × (receipt_file_errors stable_hash str embedded args context ≡ [])
        × (inventory_errors stable_hash str embedded args context ≡ [])
        × ((e : Evidence) × (snapshot_evidence stable_hash str embedded args context ≡ accepted e)
            × IsSilent e)
        × ((e : Evidence) × (report_evidence stable_hash str embedded args context ≡ accepted e)
            × IsSilent e)
        × IsSilent (compared stable_hash str embedded args context)
        × IsSilent (finalization_evidence context)
    unfolding collect_evidence
    evidence_parts =
        let finals = final_errors stable_hash str embedded args context in
        let reports = report_errors stable_hash str embedded args context in
        let receipts = receipt_file_errors stable_hash str embedded args context in
        let inventories = inventory_errors stable_hash str embedded args context in
        let snapshot_step = snapshot_evidence stable_hash str embedded args context in
        let report_step = report_evidence stable_hash str embedded args context in
        let receipt_step = receipt_evidence stable_hash str embedded args context (
          compatibility_of stable_hash str embedded args context
            (as_object (get "reference" approval))) in
        let comparison_step = accepted (compared stable_hash str embedded args context) in
        let digests = incomplete (
          labelled "final_snapshot" finals
          ++ (labelled "guard_report" reports
              ++ (labelled "receipt" receipts ++ labelled "tool_inventory" inventories))) in
        let (snapshot, h_snapshot, h1) =
          accepted_step (when (is_empty finals) snapshot_step) _ evidence collected in
        let (report, h_report, h2) =
          accepted_step (when (is_empty reports) report_step) _ evidence h1 in
        let (receipt, h_receipt, h3) =
          accepted_step (when (is_empty receipts) receipt_step) _ evidence h2 in
        let (comparison, h_comparison, h4) =
          accepted_step
            (when (is_empty reports && (is_empty receipts && is_empty inventories)) comparison_step)
            _ evidence h3 in
        let same = accepted-injective _ evidence h4 in
        let all : IsSilent
            (digests ⊕ snapshot ⊕ report ⊕ receipt ⊕ comparison ⊕ finalization_evidence context) =
          (
            ap (λ e. e.confirmed_violations) same ∙ silent.0,
            ap (λ e. e.completion_invalid) same ∙ silent.1,
            ap (λ e. e.review_reasons) same ∙ silent.2,
          ) in
        let (s_digests, rest) = ⊕-IsSilent digests _ all in
        let (s_snapshot, rest) = ⊕-IsSilent snapshot _ rest in
        let (s_report, rest) = ⊕-IsSilent report _ rest in
        let (s_receipt, rest) = ⊕-IsSilent receipt _ rest in
        let (s_comparison, s_final) = ⊕-IsSilent comparison _ rest in
        let (e_final, rest) = append-nil (labelled "final_snapshot" finals) _ s_digests.1 in
        let (e_report, rest) = append-nil (labelled "guard_report" reports) _ rest in
        let (e_receipt, e_inventory) = append-nil (labelled "receipt" receipts) _ rest in
        let no_finals = map-nil _ finals e_final in
        let no_reports = map-nil _ reports e_report in
        let no_receipts = map-nil _ receipts e_receipt in
        let no_inventories = map-nil _ inventories e_inventory in
        let bound : is_empty reports && (is_empty receipts && is_empty inventories) ≡ true =
          rw (no_reports, no_receipts, no_inventories) refl in
        let compared_as =
          accepted-injective _ comparison
            (when-true _ comparison_step comparison bound h_comparison) in
        (
          no_finals,
          no_reports,
          no_receipts,
          no_inventories,
          (snapshot, when-true _ snapshot_step snapshot (rw no_finals refl) h_snapshot, s_snapshot),
          (report, when-true _ report_step report (rw no_reports refl) h_report, s_report),
          (
            ap (λ e. e.confirmed_violations) compared_as ∙ s_comparison.0,
            ap (λ e. e.completion_invalid) compared_as ∙ s_comparison.1,
            ap (λ e. e.review_reasons) compared_as ∙ s_comparison.2,
          ),
          s_final,
        )

  -- The gate passes a candidate only if: the policy is valid and selects the gate's own image, source
  -- and rules; the approval is the one that the caller selected; the execution context names the
  -- attempt, the image and the mode that the caller expects, and is finalized and cleaned up; the final
  -- snapshot, the report, the receipt and the inventory are the files whose digests it names; the
  -- snapshot is that of the attempt, fenced and complete, with no request and no write; the matrix of
  -- the expected findings has nothing to say of the report; and `compare-saved` of the reference and
  -- the candidate exits with 0.
  pub pass-IsReleasable :
      (d : Decision)
      → evaluate stable_hash str embedded args ≡ accepted d
      → d.outcome ≡ pass_outcome
      → IsReleasable stable_hash str embedded args
  unfolding evaluate
  pass-IsReleasable d h passed =
      let (authority, authorised, rest) =
        accepted_step (check_authority stable_hash str embedded args) _ d h in
      let (binding, evidence, no_authority_errors, bound, no_binding_errors, collected, silent) =
        authorised_pass authority d rest passed in
      let (valid, approved) =
        authority_parts stable_hash str embedded args authority authorised no_authority_errors in
      let (loaded, unbound) =
        binding_parts stable_hash str embedded args authority binding bound no_binding_errors in
      let (attempt, image, mode) =
        subject_parts stable_hash str embedded args binding.context authority.policy
          authority.policy_digest unbound in
      let (
        finals,
        reports,
        receipts,
        inventories,
        (e_snapshot, taken, quiet),
        (e_report, read, expected_only),
        comparison,
        finished,
      ) =
        evidence_parts binding.context authority.approval evidence collected silent in
      let (snapshot, snapshot_loaded, is_quiet) =
        snapshot-IsSilent stable_hash str embedded args binding.context e_snapshot
          args.expected_attempt_id taken quiet attempt in
      let (report, report_loaded, matched) =
        report-IsSilent stable_hash str embedded args binding.context e_report read expected_only in
      let (finalized, cleaned_up) = finalization-IsSilent binding.context finished in
      record {
        policy = authority.policy;
        policy_digest = authority.policy_digest;
        context = binding.context;
        snapshot = snapshot;
        report = report;
        selected_policy = valid;
        selected_approval = approved;
        bound_context = loaded;
        attempt = attempt;
        image = image;
        mode = mode;
        final_named =
            record-IsNamed binding.context "final_snapshot" "final_snapshot_sha256"
              "candidate final snapshot" args.candidate_final
              (ap (labelled "final_snapshot") finals);
        report_named =
            record-IsNamed binding.context "guard_report" "report_json_sha256" "candidate report"
              args.candidate_dir.report (ap (labelled "guard_report") reports);
        receipt_named =
            record-IsNamed binding.context "receipt" "receipt_json_sha256" "candidate receipt"
              args.candidate_dir.receipt (ap (labelled "receipt") receipts);
        inventory_named =
            record-IsNamed binding.context "tool_inventory" "tool_inventory_sha256"
              "candidate tool inventory" args.candidate_dir.tool_inventory
              (ap (labelled "tool_inventory") inventories);
        final_snapshot = snapshot_loaded;
        quiet = is_quiet;
        final_report = report_loaded;
        expected_findings = matched;
        comparison =
            comparator-IsSilent stable_hash args.reference_dir args.candidate_dir comparison;
        finalized = finalized;
        cleaned_up = cleaned_up;
      }
