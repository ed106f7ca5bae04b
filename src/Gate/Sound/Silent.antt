-- ===== src/Gate/Sound/Silent.antt =====
-- The sources of evidence of assurance/phase2/gate/gate.py that say nothing.
use mcp_behaviour_guard.Prelude.{
  String, true, false, not, ◌≡◌, refl, ◌&&◌, [], arith, sym, ◌∙◌, ap, is_empty,
}
use mcp_behaviour_guard.Json.{Json, text, null, boolean, integer, float, array, object, Fields}
use mcp_behaviour_guard.SavedRun.Value.{get}
use mcp_behaviour_guard.SavedRun.Load.{RunDirectory, compare_directories, load_saved_run}
use mcp_behaviour_guard.SavedRun.Error.{
  Loaded, ok, err, ok-inj, comparison_error, on_ok, type_error, decode_error,
}
use mcp_behaviour_guard.SavedRun.Exit.{exit_status}
use mcp_behaviour_guard.Gate.Evaluate.{snapshot_evidence, report_evidence, assessed}
use mcp_behaviour_guard.Gate.Decision.{audit_event, guard_reason}
use mcp_behaviour_guard.Gate.Decision.{◌⊕◌, EvaluateArgs}
use mcp_behaviour_guard.Gate.{accepted, is_text, unless, load, Embedded}
use mcp_behaviour_guard.Gate.Decision.{
  Evidence, finalization_evidence, diff_evidence, comparator_evidence,
}
use mcp_behaviour_guard.Gate.Snapshot.{is_true_value, validate_snapshot}
use mcp_behaviour_guard.Gate.Scan.{SnapshotAssessment}
use mcp_behaviour_guard.Gate.Matrix.{MatrixAssessment, no_reasons, matrix, str_of}
use mcp_behaviour_guard.Gate.Snapshot.Ledger.{append-nil, unless-nil}
use mcp_behaviour_guard.SavedRun.Compare.{SavedRunDiff, is_comparable, compare_saved_runs}
use mcp_behaviour_guard.Gate.Sound.Parts.{
  is_text-eq, cons-ne-nil, caught-clean, map-nil, accepted_step, accepted-injective,
}
use mcp_behaviour_guard.Gate.Snapshot.Quiet.{IsQuiet, is_clean, clean_iff}

-- Evidence of which nothing speaks against the candidate.
abbrev pub IsSilent : Evidence → Type 0
IsSilent e = (e.confirmed_violations ≡ []) × (e.completion_invalid ≡ []) × (e.review_reasons ≡ [])

pub ⊕-IsSilent :
    (first later : Evidence) → IsSilent (first ⊕ later) → IsSilent first × IsSilent later
⊕-IsSilent first later (v, c, r) =
    let (v1, v2) = append-nil first.confirmed_violations _ v in
    let (c1, c2) = append-nil first.completion_invalid _ c in
    let (r1, r2) = append-nil first.review_reasons _ r in ((v1, c1, r1), (v2, c2, r2))

is_true_value-eq : (value : Json) → is_true_value value ≡ true → value ≡ boolean true
is_true_value-eq (boolean true) h = refl
is_true_value-eq (boolean false) h = ground arith
is_true_value-eq null h = ground arith
is_true_value-eq (integer n) h = ground arith
is_true_value-eq (float x) h = ground arith
is_true_value-eq (text s) h = ground arith
is_true_value-eq (array xs) h = ground arith
is_true_value-eq (object fs) h = ground arith

pub finalization-IsSilent :
    (context : Fields)
    → IsSilent (finalization_evidence context)
    → (get "attempt_completion" context ≡ text "finalized")
      × (get "cleanup_complete" context ≡ boolean true)
unfolding finalization_evidence
finalization-IsSilent context (_, c, _) =
    let (finalized, cleaned) =
      append-nil
        (unless (is_text "finalized" (get "attempt_completion" context))
          "trusted attempt finalization is incomplete")
        _ c in
    (
      is_text-eq "finalized" _ (unless-nil _ _ finalized),
      is_true_value-eq _ (unless-nil _ _ cleaned),
    )

-- A matrix without a reason.
pub no_reasons-eq :
    (m : MatrixAssessment) → m.block ≡ [] → m.invalid ≡ [] → m.review ≡ [] → m ≡ no_reasons
no_reasons-eq m b i r = λ j. record { block = b j; invalid = i j; review = r j }

-- What is compared without a remark, the command that compares saved runs exits with 0 on.
diff-IsSilent :
    (diff : SavedRunDiff)
    → IsSilent (diff_evidence diff)
    → (diff.has_new_regression
        ≡ (is_comparable diff.comparability.state && not (is_empty diff.new_failures)))
    → exit_status (ok diff) ≡ 0
unfolding diff_evidence exit_status
diff-IsSilent diff silent regression = ground arith

loaded-IsSilent :
    (loaded : Loaded SavedRunDiff)
    → ((diff : SavedRunDiff)
        → loaded ≡ ok diff
        → diff.has_new_regression
          ≡ (is_comparable diff.comparability.state && not (is_empty diff.new_failures)))
    → IsSilent (comparator_evidence loaded)
    → exit_status loaded ≡ 0
unfolding comparator_evidence
loaded-IsSilent (ok diff) regression silent = diff-IsSilent diff silent (regression diff refl)
loaded-IsSilent (err (comparison_error message)) regression silent =
    absurd (cons-ne-nil _ _ silent.1)
loaded-IsSilent (err type_error) regression silent = absurd (cons-ne-nil _ _ silent.1)
loaded-IsSilent (err decode_error) regression silent = absurd (cons-ne-nil _ _ silent.1)

compared_regression :
    (stable_hash : Json → String) (reference candidate : RunDirectory) (diff : SavedRunDiff)
    → compare_directories stable_hash reference candidate ≡ ok diff
    → diff.has_new_regression
      ≡ (is_comparable diff.comparability.state && not (is_empty diff.new_failures))
unfolding compare_directories compare_saved_runs
compared_regression stable_hash reference candidate diff h =
    on_ok (load_saved_run reference) _ h λ r loaded_r h1.
      on_ok (load_saved_run candidate) _ h1 λ c loaded_c h2. rw (sym (ok-inj h2)) refl

pub comparator-IsSilent :
    (stable_hash : Json → String) (reference candidate : RunDirectory)
    → IsSilent (comparator_evidence (compare_directories stable_hash reference candidate))
    → exit_status (compare_directories stable_hash reference candidate) ≡ 0
comparator-IsSilent stable_hash reference candidate =
    loaded-IsSilent (compare_directories stable_hash reference candidate)
      (compared_regression stable_hash reference candidate)

-- An assessment of the final evidence that gives nothing is clean.
module _ (stable_hash str : Json → String) (embedded : Embedded) (args : EvaluateArgs)
    (context : Fields) where
  assessed-IsSilent :
      (a : SnapshotAssessment)
      → IsSilent (assessed stable_hash str embedded args context a)
      → is_clean a ≡ true
  assessed-IsSilent a (v, c, r) =
      let no_violation = map-nil audit_event a.violations v in
      let (attributed, complete) = append-nil a.attribution_invalid _ (map-nil _ _ c) in
      let no_review : a.review ≡ [] = rw attributed at r in
      rw (no_violation, attributed, complete, no_review) refl

  pub snapshot-IsSilent :
      (evidence : Evidence) (attempt_id : String)
      → snapshot_evidence stable_hash str embedded args context ≡ accepted evidence
      → IsSilent evidence
      → get "attempt_id" context ≡ text attempt_id
      → (snapshot : Fields) × (load args.candidate_final ≡ accepted snapshot)
        × IsQuiet snapshot attempt_id
  unfolding snapshot_evidence
  snapshot-IsSilent evidence attempt_id h silent attempt =
      let clean = caught-clean "final_snapshot" _ evidence h silent.1 in
      let (snapshot, loaded, last) = accepted_step (load args.candidate_final) _ evidence clean in
      let same = accepted-injective _ evidence last in
      let named = str_of str (get "attempt_id" context) in
      let assessment = validate_snapshot snapshot named in
      let given : IsSilent (assessed stable_hash str embedded args context assessment) = (
        ap (λ e. e.confirmed_violations) same ∙ silent.0,
        ap (λ e. e.completion_invalid) same ∙ silent.1,
        ap (λ e. e.review_reasons) same ∙ silent.2,
      ) in
      let quiet = (clean_iff snapshot named).0 (assessed-IsSilent assessment given) in
      (snapshot, loaded, rw attempt at quiet)

  pub report-IsSilent :
      (evidence : Evidence)
      → report_evidence stable_hash str embedded args context ≡ accepted evidence
      → IsSilent evidence
      → (report : Fields) × (load args.candidate_dir.report ≡ accepted report)
        × (matrix str embedded.expected_checks report ≡ accepted no_reasons)
  unfolding report_evidence
  report-IsSilent evidence h silent =
      let clean = caught-clean "guard_report" _ evidence h silent.1 in
      let (report, loaded, rest) =
        accepted_step (load args.candidate_dir.report) _ evidence clean in
      let (found, assessed_as, last) =
        accepted_step (matrix str embedded.expected_checks report) _ evidence rest in
      let same = accepted-injective _ evidence last in
      let nothing =
        no_reasons-eq found
          (map-nil guard_reason found.block (ap (λ e. e.confirmed_violations) same ∙ silent.0))
          (map-nil _ found.invalid (ap (λ e. e.completion_invalid) same ∙ silent.1))
          (ap (λ e. e.review_reasons) same ∙ silent.2) in
      (report, loaded, assessed_as ∙ ap accepted nothing)
