-- ===== src/Gate/Promote.antt =====
-- `_promote` of assurance/phase2/gate/gate.py: the checks on a reference, and the approval bundle
-- that it writes. The two files written are not modelled.
use mcp_behaviour_guard.Prelude.{
  String, ◌&&◌, none, some, List, [], ◌∷◌, is_empty, ◌≡◌, refl, sym, eq_refl,
}
use mcp_behaviour_guard.Json.{Json, null, text, integer, object, Fields, end, field}
use mcp_behaviour_guard.Prelude.Int.{pos}
use mcp_behaviour_guard.SavedRun.Value.{get, json_eq, as_object}
use mcp_behaviour_guard.SavedRun.Load.{StoredFile, RunDirectory}
use mcp_behaviour_guard.Models.{lookup}
use mcp_behaviour_guard.Gate.{
  Checked, accepted, ◌>>=◌, ◌>>◌, is_text, is_number, require, sha, load, Embedded, validate_policy,
}
use mcp_behaviour_guard.Gate.Matrix.{matrix, str_of}
use mcp_behaviour_guard.Gate.Snapshot.{validate_snapshot, is_true_value}
use mcp_behaviour_guard.Gate.Snapshot.Quiet.{is_clean}
use mcp_behaviour_guard.Gate.Context.{
  Expected, RunManifest, manifest_for_run, validate_context_files, receipt_compatibility,
  verify_reference,
}
use mcp_behaviour_guard.Gate.Sound.Parts.{accepted_step, accepted-injective}

pub record PromoteArgs : Type 0 where
  pub policy : StoredFile
  pub reference_dir : RunDirectory
  pub reference_context : StoredFile
  pub reference_final : StoredFile
  pub selected_gate_image : String

-- What the checks hand on to the bundle.
pub record Reference : Type 0 where
  pub policy_digest : String
  pub context : Fields
  pub compatibility : List (String × Json)

-- d.get(key) of a dictionary that is built in the code.
abbrev entry : String → List (String × Json) → Json
entry key entries = elim (lookup key entries) [ none ↦ null | some value ↦ value ]

abbrev fields_of : List (String × Json) → Fields
fields_of [] = end
fields_of ((key, value) ∷ rest) = field key value (fields_of rest)

abbrev pub bundle_manifest : RunManifest → String → String → Fields
bundle_manifest manifest context_digest final_digest = fields_of (
    ("report_json_sha256", text manifest.report_json_sha256)
    ∷ ("receipt_json_sha256", text manifest.receipt_json_sha256)
    ∷ ("tool_inventory_sha256", text manifest.tool_inventory_sha256)
    ∷ ("execution_context_sha256", text context_digest)
    ∷ ("final_snapshot_sha256", text final_digest)
    ∷ [])

unfoldable pub bundle_of : Reference → Fields → Fields
bundle_of reference manifest = fields_of (
    ("schema_version", integer (pos 1))
    ∷ ("policy_profile_digest", text reference.policy_digest)
    ∷ (
      "reference",
      object (
          fields_of (
            ("origin_attempt_id", get "attempt_id" reference.context)
            ∷ ("guard_run_id", get "guard_run_id" reference.context)
            ∷ ("candidate_image", get "candidate_image" reference.context)
            ∷ ("manifest", object manifest)
            ∷ ("compatibility", object (fields_of reference.compatibility))
            ∷ [])),
    )
    ∷ [])

module _ (str : Json → String) (embedded : Embedded) (args : PromoteArgs) where
  -- The context names its own attempt and image, and the good mode.
  abbrev expected_reference : Fields → Expected
  expected_reference context = record {
    attempt_id = get "attempt_id" context;
    candidate_image = get "candidate_image" context;
    candidate_mode = text "good";
  }

  unfoldable pub check_reference : Checked Reference
  unfolding validate_policy load validate_context_files matrix validate_snapshot
      receipt_compatibility
  check_reference = do
    (policy, policy_digest) ← validate_policy embedded args.policy args.selected_gate_image
    context ← load args.reference_context
    errors ←
        validate_context_files context policy args.reference_context args.reference_dir
          args.reference_final policy_digest (expected_reference context)
    require (is_empty errors) "reference execution context invalid"
    require (is_text "finalized" (get "attempt_completion" context))
        "reference attempt is not finalized"
    require (is_true_value (get "cleanup_complete" context))
        "reference runtime cleanup is not complete"
    report ← load args.reference_dir.report
    require (is_text "pass" (get "assessment" report)) "reference report is not PASS"
    found ← matrix str embedded.expected_checks report
    require (is_empty found.block && (is_empty found.invalid && is_empty found.review))
        "reference does not satisfy expected matrix"
    snapshot ← load args.reference_final
    require (is_clean (validate_snapshot snapshot (str_of str (get "attempt_id" context))))
        "reference final evidence is not approval-clean"
    compatibility ← receipt_compatibility args.reference_dir
    require (is_number 3 (entry "normalization_version" compatibility))
        "reference normalization version is not 3"
    require (is_number 2 (entry "report_schema_version" compatibility))
        "reference report schema version is not 2"
    require (json_eq (entry "contract_source_sha256" compatibility) (get "contract_sha256" policy))
        "reference contract hash differs from selected policy"
    accepted
        (record { policy_digest = policy_digest; context = context; compatibility = compatibility })

  abbrev bundle_for : Reference → Checked Fields
  bundle_for reference = do
    manifest ← manifest_for_run args.reference_dir
    context_digest ← sha args.reference_context
    final_digest ← sha args.reference_final
    accepted (bundle_of reference (bundle_manifest manifest context_digest final_digest))

  -- The bundle.
  unfoldable pub promote : Checked Fields
  unfolding check_reference bundle_of manifest_for_run
  promote = check_reference >>= bundle_for

  bundle_verifies :
      (reference : Reference) (manifest : RunManifest) (context_digest final_digest : String)
      → manifest_for_run args.reference_dir ≡ accepted manifest
      → sha args.reference_context ≡ accepted context_digest
      → sha args.reference_final ≡ accepted final_digest
      → verify_reference
          (as_object (
            get "reference"
              (bundle_of reference (bundle_manifest manifest context_digest final_digest))))
          args.reference_dir
          args.reference_context
          args.reference_final
        ≡ accepted []
  unfolding bundle_of verify_reference json_eq
  bundle_verifies reference manifest context_digest final_digest h_manifest h_context h_final =
      rw
        (
          h_manifest,
          h_context,
          h_final,
          eq_refl manifest.report_json_sha256,
          eq_refl manifest.receipt_json_sha256,
          eq_refl manifest.tool_inventory_sha256,
          eq_refl context_digest,
          eq_refl final_digest,
        )
        refl

  -- A bundle that the gate writes is one that its evaluation accepts on the same reference: no file
  -- of the reference differs from the manifest.
  pub promote-verify_reference :
      (bundle : Fields)
      → promote ≡ accepted bundle
      → verify_reference
          (as_object (get "reference" bundle))
          args.reference_dir
          args.reference_context
          args.reference_final
        ≡ accepted []
  unfolding promote
  promote-verify_reference bundle h =
      let (reference, _, h1) = accepted_step check_reference bundle_for bundle h in
      let (manifest, h_manifest, h2) =
        accepted_step (manifest_for_run args.reference_dir) _ bundle h1 in
      let (context_digest, h_context, h3) =
        accepted_step (sha args.reference_context) _ bundle h2 in
      let (final_digest, h_final, h4) = accepted_step (sha args.reference_final) _ bundle h3 in
      let same = accepted-injective _ bundle h4 in
      rw (sym same) (
        bundle_verifies reference manifest context_digest final_digest h_manifest h_context h_final)
