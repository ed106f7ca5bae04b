-- ===== src/SavedRun/Load/Checks.antt =====
-- What the checks of `_load_saved_run` in src/mcp_behaviour_guard/baseline.py establish when they
-- return: the membership of the findings and the assessment of the report.
use mcp_behaviour_guard.Prelude.{
  eq_iff, String, ◌≡◌, ◌==◌, arith, sym, true, List, [], ◌∷◌, Option, some, ◌∙◌, ap, text_leb,
  both_true, contains, refl, ◌↔◌, ◌≢◌,
}
use mcp_behaviour_guard.Prelude.Members.{contains-order_by}
use mcp_behaviour_guard.SavedRun.Load.{ok, check_membership, texts_or, check_agreement}
use mcp_behaviour_guard.Json.{Fields, Json, text, object}
use mcp_behaviour_guard.SavedRun.Value.{get}
use mcp_behaviour_guard.SavedRun.Error.{require, require-ok, on_ok, >>=-eq-ok}
use mcp_behaviour_guard.SavedRun.Finding.{SavedFinding, ids}
use mcp_behaviour_guard.SavedRun.Receipt.Known.{mapping-eq_ok}
use mcp_behaviour_guard.SavedRun.Receipt.{mapping, texts, same_texts, validate_receipt_v1}
use mcp_behaviour_guard.SavedRun.Inventory.{sorted_names}
use mcp_behaviour_guard.SavedRun.Value.{json_eq}
use mcp_behaviour_guard.SavedRun.Conformance.{
  conformance, Verdict, fail, inconclusive, not_tested, pass,
}
use mcp_behaviour_guard.SavedRun.Load.{verdict_name}
use mcp_behaviour_guard.SavedRun.Conformance.Meaning.{all_passed, conformance-pass}

same_texts_lem : (xs ys : List String) → same_texts xs ys ≡ true → xs ≡ ys
unfolding same_texts
same_texts_lem [] [] h = refl
same_texts_lem [] (y ∷ ys) h = cc
same_texts_lem (x ∷ xs) [] h = cc
same_texts_lem (x ∷ xs) (y ∷ ys) h =
    let (first, others) = both_true (x == y) _ h in
    let e : x ≡ y = (eq_iff x y).0 first in let es = same_texts_lem xs ys others in cc

texts_or-eq_ok :
    (message : String) (listed : Option (List String)) {names : List String}
    → texts_or message listed ≡ ok names
    → listed ≡ some names
unfolding texts_or
texts_or-eq_ok message listed h = ground arith

-- The receipt lists the findings' identifiers, in any order.
abbrev pub Lists : Fields → List SavedFinding → Type 0
Lists receipt findings =
    (checks : Fields) × (get "checks" receipt ≡ object checks)
    × (names : List String) × (texts (get "finding_ids" checks) ≡ some names)
    × ((i : String) → contains names i ≡ contains (ids findings) i)

pub check_membership-Lists :
    (receipt : Fields) (findings : List SavedFinding) {u : Unit {0}}
    → check_membership receipt findings ≡ ok u
    → Lists receipt findings
unfolding check_membership sorted_names
check_membership-Lists receipt findings h =
    on_ok (mapping "receipt has no checks mapping" (get "checks" receipt)) _ h λ checks h_checks h.
      on_ok (texts_or "receipt finding membership is invalid" (texts (get "finding_ids" checks))) _
        h
        λ names h_names h.
          let same = same_texts_lem _ _ (require-ok _ _ h) in
          (
            checks,
            mapping-eq_ok _ (get "checks" receipt) h_checks,
            names,
            texts_or-eq_ok _ (texts (get "finding_ids" checks)) h_names,
            λ i.
                sym (contains-order_by text_leb names i)
                ∙ ap (λ l. contains l i) same
                ∙ contains-order_by text_leb (ids findings) i,
          )

json_eq-text : (v : Json) (s : String) → json_eq v (text s) ≡ true → v ≡ text s
unfolding json_eq
json_eq-text (text t) s h = ap text ((eq_iff t s).0 h)
json_eq-text v s h = ground arith

verdict_name-pass :
    (verdict : Verdict)
    → json_eq (text (verdict_name verdict)) (text "pass") ≡ true
    → verdict ≡ pass
unfolding json_eq
verdict_name-pass fail h = cc
verdict_name-pass inconclusive h = cc
verdict_name-pass not_tested h = cc
verdict_name-pass pass h = refl

-- The report's assessment is the verdict on the findings.
pub check_agreement-assessment :
    (receipt report : Fields) (findings : List SavedFinding) {u : Unit {0}}
    → check_agreement receipt report findings ≡ ok u
    → get "assessment" report ≡ text (verdict_name (conformance findings))
unfolding check_agreement
check_agreement-assessment receipt report findings h =
    let sections : String = "receipt is missing run/context/runner mappings" in
    let (run, e, h) = >>=-eq-ok (mapping sections (get "run" receipt)) _ h in
    let (context, e, h) = >>=-eq-ok (mapping sections (get "context" receipt)) _ h in
    let (runner, e, h) = >>=-eq-ok (mapping sections (get "runner" receipt)) _ h in
    let (u, e, h) = >>=-eq-ok (validate_receipt_v1 receipt) _ h in
    let (u, e, h) =
      >>=-eq-ok
        (require (json_eq (get "completion" run) (text "completed"))
          "receipt is not a completed run")
        _ h in
    let (u, e, h) =
      >>=-eq-ok
        (require (json_eq (get "run_id" run) (get "run_id" report))
          "receipt run identity does not match report")
        _ h in
    let (u, e, h) =
      >>=-eq-ok
        (require (json_eq (get "logical_target" context) (get "target" report))
          "receipt target identity does not match report")
        _ h in
    let (u, e, h) =
      >>=-eq-ok
        (require (json_eq (get "mcp_sdk_version" runner) (get "sdk_version" report))
          "receipt mcp_sdk_version does not match report")
        _ h in
    let (u, e, h) =
      >>=-eq-ok
        (require (json_eq (get "transport" runner) (get "transport" report))
          "receipt transport does not match report")
        _ h in
    let (u, e, h) =
      >>=-eq-ok
        (require (json_eq (get "state_strategy" runner) (get "state_strategy" report))
          "receipt state_strategy does not match report")
        _ h in
    json_eq-text (get "assessment" report) _ (require-ok _ _ h)

-- A report with the verdict on its findings says "pass" exactly when the findings conform.
pub assessment_lem :
    (report : Fields) (findings : List SavedFinding)
    → get "assessment" report ≡ text (verdict_name (conformance findings))
    → (get "assessment" report ≡ text "pass") ↔ ((all_passed findings ≡ true) × (findings ≢ []))
unfolding json_eq
assessment_lem report findings e = (
  λ h.
      let same : json_eq (text (verdict_name (conformance findings))) (text "pass") ≡ true =
        ap (λ v. json_eq v (text "pass")) (sym e ∙ h) in
      (conformance-pass findings).0 (verdict_name-pass (conformance findings) same),
  λ h. e ∙ ap (λ v. text (verdict_name v)) ((conformance-pass findings).1 h),
)
