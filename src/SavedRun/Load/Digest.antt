-- ===== src/SavedRun/Load/Digest.antt =====
-- What `_load_saved_run` of src/mcp_behaviour_guard/baseline.py has established of a run that it
-- returns.
use mcp_behaviour_guard.Prelude.{eq_iff, String, ◌≡◌, ◌==◌, arith, sym, true, [], ◌↔◌, ◌≢◌}
use mcp_behaviour_guard.SavedRun.Load.{
  load_report, text_or, StoredFile, ok, load_json_object, digest_of, check_membership,
  check_agreement, RunDirectory, load_saved_run, check_receipt_schema, is_number, load_inventory,
}
use mcp_behaviour_guard.Json.{Fields, Json, text, object}
use mcp_behaviour_guard.SavedRun.Value.{get}
use mcp_behaviour_guard.SavedRun.Error.{require, require-ok, on_ok, ok-inj}
use mcp_behaviour_guard.SavedRun.Finding.{index_saved_findings}
use mcp_behaviour_guard.SavedRun.Receipt.Known.{mapping-eq_ok}
use mcp_behaviour_guard.SavedRun.Receipt.{mapping}
use mcp_behaviour_guard.SavedRun.Conformance.Meaning.{all_passed}
use mcp_behaviour_guard.SavedRun.Compare.{SavedRun}
use mcp_behaviour_guard.SavedRun.Load.Checks.{
  Lists, check_membership-Lists, check_agreement-assessment, assessment_lem,
}

text_or-eq_ok : (message : String) (v : Json) {s : String} → text_or message v ≡ ok s → v ≡ text s
unfolding text_or
text_or-eq_ok message v h = ground arith

-- The report's file has the digest that the artifacts name, and is what is loaded.
load_report-digest :
    (artifacts : Fields) (file : StoredFile) {report : Fields}
    → load_report artifacts file ≡ ok report
    → (digest : String) × (get "report_json_sha256" artifacts ≡ text digest)
      × (digest_of "report.json is missing" file ≡ ok digest)
      × (load_json_object file ≡ ok report)
unfolding load_report
load_report-digest artifacts file h =
    on_ok (text_or "receipt has no report digest" (get "report_json_sha256" artifacts)) _ h
      λ expected named h1. on_ok (digest_of "report.json is missing" file) _ h1 λ digest present h2.
        on_ok (require (digest == expected) "report digest mismatch") _ h2 λ u equal h3.
          let same : digest ≡ expected =
            (eq_iff digest expected).0
              (require-ok (digest == expected) "report digest mismatch" equal) in
          (
            expected,
            text_or-eq_ok "receipt has no report digest" (get "report_json_sha256" artifacts) named,
            rw same at present,
            h3,
          )

-- What the receipt and the report of a loaded run name: the report's file has the digest that the
-- receipt gives.
abbrev pub HasReport : RunDirectory → SavedRun → Type 0
HasReport root run =
    (artifacts : Fields) × (get "artifacts" run.receipt ≡ object artifacts)
    × (digest : String) × (get "report_json_sha256" artifacts ≡ text digest)
    × (digest_of "report.json is missing" root.report ≡ ok digest)
    × (load_json_object root.report ≡ ok run.report)

-- A run that loads is what its receipt says: its report is the file of that digest, the receipt
-- lists the identifiers of the report's findings, in any order and no others, and the report's
-- assessment is "pass" exactly when it has findings and all of them passed.
pub load_saved_run-digest :
    (root : RunDirectory) {run : SavedRun}
    → load_saved_run root ≡ ok run
    → HasReport root run
      × (index_saved_findings run.report ≡ ok run.findings)
      × Lists run.receipt run.findings
      × ((get "assessment" run.report ≡ text "pass")
          ↔ ((all_passed run.findings ≡ true) × (run.findings ≢ [])))
unfolding load_saved_run
load_saved_run-digest root {run} h =
    on_ok (load_json_object root.receipt) _ h λ receipt h_receipt h1.
      on_ok (check_receipt_schema receipt) _ h1 λ u h_schema h2.
        on_ok (mapping "receipt has no artifacts mapping" (get "artifacts" receipt)) _ h2
          λ artifacts h_artifacts h3.
            on_ok (load_report artifacts root.report) _ h3 λ report h_report h4.
              on_ok
                (require (is_number 2 (get "schema_version" report)) "report schema is unsupported")
                _ h4
                λ u h_version h5. on_ok (index_saved_findings report) _ h5 λ findings h_findings h6.
                  on_ok (check_membership receipt findings) _ h6 λ u h_members h7.
                    on_ok (check_agreement receipt report findings) _ h7 λ u h_agree h8.
                      on_ok
                        (load_inventory (get "tool_inventory_sha256" artifacts) root.tool_inventory)
                        _ h8
                        λ (tools, available) h_tools h9.
                          on_ok (digest_of "is missing" root.receipt) _ h9 λ digest h_digest h10.
                            let (digest, named, here, loaded) =
                              load_report-digest artifacts root.report h_report in
                            rw (sym (ok-inj h10)) (
                              (
                                artifacts,
                                mapping-eq_ok _ (get "artifacts" receipt) h_artifacts,
                                digest,
                                named,
                                here,
                                loaded,
                              ),
                              h_findings,
                              check_membership-Lists receipt findings h_members,
                              assessment_lem report findings
                                  (check_agreement-assessment receipt report findings h_agree),
                            )
