-- ===== src/Gate/Sound.antt =====
-- What a PASS of assurance/phase2/gate/gate.py says.
pub mod Parts
pub mod Silent
pub mod Pass
use mcp_behaviour_guard.Prelude.{String, true, ◌≡◌, [], arith, ap, ◌==◌, eq_iff, ◌++◌, ◌∙◌}
use mcp_behaviour_guard.Json.{Json, text, boolean, Fields}
use mcp_behaviour_guard.SavedRun.Value.{get, json_eq, as_object}
use mcp_behaviour_guard.SavedRun.Load.{compare_directories}
use mcp_behaviour_guard.SavedRun.Exit.{exit_status}
use mcp_behaviour_guard.Gate.{
  Checked, refused, crashed, accepted, is_text, load, Embedded, validate_policy, unless, is_number,
  sha,
}
use mcp_behaviour_guard.Gate.Matrix.{matrix, no_reasons}
use mcp_behaviour_guard.Gate.Snapshot.Ledger.{unless-nil, append-nil}
use mcp_behaviour_guard.Gate.Snapshot.Quiet.{IsQuiet}
use mcp_behaviour_guard.Gate.Context.{
  binding_errors, verify_reference, validate_context_core, self_digest_errors,
}
use mcp_behaviour_guard.Gate.Evaluate.{
  check_authority, check_binding, expected, bind_context, context_errors,
}
use mcp_behaviour_guard.Gate.Decision.{
  EvaluateArgs, digest_or, Authority, policy_part, approval_part, if_clean, Binding, error_list,
}
use mcp_behaviour_guard.Gate.Sound.Parts.{
  IsNamed, accepted_step, accepted-injective, if_clean-nil, policy_part-nil, is_text-eq,
  cons-ne-nil, error_list-nil,
}

-- What the gate has made sure of.
pub record IsReleasable (stable_hash str : Json → String) (embedded : Embedded)
    (args : EvaluateArgs) : Type 0 where
  pub policy : Fields
  pub policy_digest : String
  pub context : Fields
  pub snapshot : Fields
  pub report : Fields
  pub selected_policy :
      validate_policy embedded args.policy args.selected_gate_image
      ≡ accepted (policy, policy_digest)
  pub selected_approval : digest_or "missing" args.approval ≡ args.selected_approval_digest
  pub bound_context : load args.candidate_context ≡ accepted context
  pub attempt : get "attempt_id" context ≡ text args.expected_attempt_id
  pub image : get "candidate_image" context ≡ text args.expected_candidate_image
  pub mode : get "candidate_mode" context ≡ text args.expected_candidate_mode
  pub final_named : IsNamed context "final_snapshot_sha256" args.candidate_final
  pub report_named : IsNamed context "report_json_sha256" args.candidate_dir.report
  pub receipt_named : IsNamed context "receipt_json_sha256" args.candidate_dir.receipt
  pub inventory_named : IsNamed context "tool_inventory_sha256" args.candidate_dir.tool_inventory
  pub final_snapshot : load args.candidate_final ≡ accepted snapshot
  pub quiet : IsQuiet snapshot args.expected_attempt_id
  pub final_report : load args.candidate_dir.report ≡ accepted report
  pub expected_findings : matrix str embedded.expected_checks report ≡ accepted no_reasons
  pub comparison :
      exit_status (compare_directories stable_hash args.reference_dir args.candidate_dir) ≡ 0
  pub finalized : get "attempt_completion" context ≡ text "finalized"
  pub cleaned_up : get "cleanup_complete" context ≡ boolean true

module _ (stable_hash str : Json → String) (embedded : Embedded) (args : EvaluateArgs) where
  -- The policy and the approval of an authority without an error.
  authority_parts :
      (authority : Authority)
      → check_authority stable_hash str embedded args ≡ accepted authority
      → authority.errors ≡ []
      → (validate_policy embedded args.policy args.selected_gate_image
          ≡ accepted (authority.policy, authority.policy_digest))
        × (digest_or "missing" args.approval ≡ args.selected_approval_digest)
  unfolding check_authority
  authority_parts authority h clean =
      let validated = validate_policy embedded args.policy args.selected_gate_image in
      let (policy, first, h1) = accepted_step (policy_part args.policy validated) _ authority h in
      let (approval, second, h2) =
        accepted_step (approval_part (load args.approval) policy.0.1) _ authority h1 in
      let early =
        policy.1
        ++ (unless (digest_or "missing" args.approval == args.selected_approval_digest)
              "selected approval bundle digest mismatch"
            ++ approval.1) in
      let verified =
        verify_reference (as_object (get "reference" approval.0)) args.reference_dir
          args.reference_context args.reference_final in
      let (errors, checked, last) = accepted_step (if_clean early verified) _ authority h2 in
      let same = accepted-injective _ authority last in
      let none_early =
        if_clean-nil early verified (rw (ap (λ a. a.errors) same ∙ clean) at checked) in
      let (no_policy_errors, others) = append-nil policy.1 _ none_early in
      let (selected, approved) =
        append-nil
          (unless (digest_or "missing" args.approval == args.selected_approval_digest)
            "selected approval bundle digest mismatch")
          _ others in
      (
        policy_part-nil args.policy validated policy first no_policy_errors
            ∙ ap accepted (ap (λ a. (a.policy, a.policy_digest)) same),
        (eq_iff (digest_or "missing" args.approval) args.selected_approval_digest).0
            (unless-nil _ _ selected),
      )

  -- The context that is bound without an error.
  bound_parts :
      (authority : Authority) (binding : Binding) (loaded : Checked Fields)
      → bind_context stable_hash str embedded args authority loaded ≡ accepted binding
      → binding.errors ≡ []
      → (loaded ≡ accepted binding.context)
        × (binding_errors binding.context authority.policy authority.policy_digest
              (expected stable_hash str embedded args)
            ≡ [])
  unfolding validate_context_core
  bound_parts authority binding (refused message) h clean =
      absurd (cons-ne-nil _ _ (ap (λ b. b.errors) (accepted-injective _ _ h) ∙ clean))
  bound_parts authority binding crashed h clean = absurd (ground arith)
  bound_parts authority binding (accepted context) h clean =
      let noted = context_errors stable_hash str embedded args authority context in
      let core =
        validate_context_core context authority.policy args.candidate_context
          authority.policy_digest (expected stable_hash str embedded args) in
      let (errors, checked, last) = accepted_step (error_list noted) _ binding h in
      let same = accepted-injective _ binding last in
      let silent = error_list-nil noted (rw (ap (λ b. b.errors) same ∙ clean) at checked) in
      let (found, core_checked, joined) = accepted_step core _ [] silent in
      let (no_core_errors, _) = append-nil found _ (accepted-injective _ _ joined) in
      let (digest, hashed, rest) =
        accepted_step (sha args.candidate_context) _ found core_checked in
      let (self, own, ends) =
        accepted_step (self_digest_errors digest (get "execution_context_sha256" context)) _ found
          rest in
      let bound =
        binding_errors context authority.policy authority.policy_digest
          (expected stable_hash str embedded args) in
      (
        ap accepted (ap (λ b. b.context) same),
        rw (ap (λ b. b.context) same) at
            ((append-nil bound self (accepted-injective _ _ ends ∙ no_core_errors)).0),
      )

  binding_parts :
      (authority : Authority) (binding : Binding)
      → check_binding stable_hash str embedded args authority ≡ accepted binding
      → binding.errors ≡ []
      → (load args.candidate_context ≡ accepted binding.context)
        × (binding_errors binding.context authority.policy authority.policy_digest
              (expected stable_hash str embedded args)
            ≡ [])
  unfolding check_binding
  binding_parts authority binding h clean =
      bound_parts authority binding (load args.candidate_context) h clean

  -- The subject of a context without a binding error.
  subject_parts :
      (context policy : Fields) (policy_digest : String)
      → binding_errors context policy policy_digest (expected stable_hash str embedded args) ≡ []
      → (get "attempt_id" context ≡ text args.expected_attempt_id)
        × (get "candidate_image" context ≡ text args.expected_candidate_image)
        × (get "candidate_mode" context ≡ text args.expected_candidate_mode)
  unfolding binding_errors
  subject_parts context policy policy_digest h =
      let (_, h) =
        append-nil
          (unless (is_number 1 (get "schema_version" context))
            "execution context schema_version is not 1")
          _ h in
      let (_, h) =
        append-nil
          (unless (is_text policy_digest (get "policy_profile_digest" context))
            "execution context policy profile digest mismatch")
          _ h in
      let (_, h) =
        append-nil
          (unless (json_eq (get "platform" context) (get "platform" policy))
            "execution context platform differs from selected policy")
          _ h in
      let (attempt, h) =
        append-nil
          (unless (is_text args.expected_attempt_id (get "attempt_id" context))
            "execution context attempt differs from trusted selected attempt")
          _ h in
      let (image, h) =
        append-nil
          (unless (is_text args.expected_candidate_image (get "candidate_image" context))
            "execution context candidate image differs from trusted selected subject")
          _ h in
      let (mode, _) =
        append-nil
          (unless (is_text args.expected_candidate_mode (get "candidate_mode" context))
            "execution context candidate mode differs from trusted selected subject")
          _ h in
      (
        is_text-eq args.expected_attempt_id _ (unless-nil _ _ attempt),
        is_text-eq args.expected_candidate_image _ (unless-nil _ _ image),
        is_text-eq args.expected_candidate_mode _ (unless-nil _ _ mode),
      )
