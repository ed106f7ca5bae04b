-- ===== src/Gate/Matrix/Met.antt =====
-- A report against the findings that the matrix of assurance/phase2/gate/gate.py requires.
use mcp_behaviour_guard.Prelude.{
  String, true, ◌≡◌, refl, some, List, [], arith, ◌==◌, Option-cases, ap, ◌∙◌, inl, Bool-cases, inr,
  eq_iff, Option, none,
}
use Prim.Native.String.{◌++◌ as ◌⧺◌}
use mcp_behaviour_guard.Prelude.Option
use mcp_behaviour_guard.Json.{
  Json, object, Fields, end, field, get?, boolean, integer, float, text, array, null, Items,
}
use mcp_behaviour_guard.SavedRun.Value.{get, json_eq, as_array}
use mcp_behaviour_guard.Models.{lookup}
use mcp_behaviour_guard.Gate.{accepted, ◌>>=◌, mapping, load}
use mcp_behaviour_guard.Gate.Matrix.{
  MatrixAssessment, compare_rule, required_finding, required_findings, matrix, with_matrix,
  findings, other_findings,
}
use mcp_behaviour_guard.Gate.Snapshot.Ledger.{append-nil}
use mcp_behaviour_guard.Gate.Sound.Parts.{accepted_step, accepted-injective, cons-ne-nil}
use mcp_behaviour_guard.SavedRun.Load.{StoredFile}

-- The finding is there, with the status and the observation of its rule.
abbrev pub IsMet : List (String × Fields) → String → Json → Type 0
IsMet found test_id rule =
    (finding : Fields) × (expected : Fields) × (lookup test_id found ≡ some finding)
    × (rule ≡ object expected)
    × (json_eq (get "status" finding) (get "status" expected) ≡ true)
    × (json_eq (get "observation" finding) (get "observation" expected) ≡ true)

compare_rule-nil :
    (test_id : String) (rule finding : Fields)
    → (compare_rule test_id rule finding).block ≡ []
    → (compare_rule test_id rule finding).invalid ≡ []
    → (json_eq (get "status" finding) (get "status" rule) ≡ true)
      × (json_eq (get "observation" finding) (get "observation" rule) ≡ true)
unfolding compare_rule
compare_rule-nil test_id rule finding b i = (ground arith, ground arith)

rule-IsMet :
    (found : List (String × Fields)) (test_id : String) (rule : Json) (m : MatrixAssessment)
    (finding : Fields)
    → lookup test_id found ≡ some finding
    → (mapping ("matrix rule is malformed for " ⧺ test_id) rule >>= λ expected.
        accepted (compare_rule test_id expected finding))
      ≡ accepted m
    → m.block ≡ []
    → m.invalid ≡ []
    → IsMet found test_id rule
rule-IsMet found test_id (object expected) m finding there h b i =
    let same = accepted-injective _ m h in
    let (status, observation) =
      compare_rule-nil test_id expected finding (ap (λ x. x.block) same ∙ b)
        (ap (λ x. x.invalid) same ∙ i) in
    (finding, expected, there, refl, status, observation)
rule-IsMet found test_id null m finding there h b i = absurd (ground arith)
rule-IsMet found test_id (boolean x) m finding there h b i = absurd (ground arith)
rule-IsMet found test_id (integer n) m finding there h b i = absurd (ground arith)
rule-IsMet found test_id (float x) m finding there h b i = absurd (ground arith)
rule-IsMet found test_id (text s) m finding there h b i = absurd (ground arith)
rule-IsMet found test_id (array xs) m finding there h b i = absurd (ground arith)

required_finding-IsMet :
    (found : List (String × Fields)) (test_id : String) (rule : Json) (m : MatrixAssessment)
    → required_finding found test_id rule ≡ accepted m
    → m.block ≡ []
    → m.invalid ≡ []
    → IsMet found test_id rule
unfolding required_finding
required_finding-IsMet found test_id rule m h b i = elim (Option-cases (lookup test_id found)) [
  | inl missing ↦ absurd (
      cons-ne-nil _ _
        (ap (λ x. x.invalid) (accepted-injective _ m (rw (missing, required_finding) at h)) ∙ i))
  | inr (finding, there) ↦
      rule-IsMet found test_id rule m finding there (rw (there, required_finding) at h) b i
]

required_findings-IsMet :
    (found : List (String × Fields)) (required : Fields) (m : MatrixAssessment) (test_id : String)
    (rule : Json)
    → required_findings found required ≡ accepted m
    → m.block ≡ []
    → m.invalid ≡ []
    → get? test_id required ≡ some rule
    → IsMet found test_id rule
unfolding required_findings
required_findings-IsMet found end m test_id rule h b i there = absurd (ground arith)
required_findings-IsMet found (field key value rest) m test_id rule h b i there =
    let (first, h_first, h1) = accepted_step (required_finding found key value) _ m h in
    let (later, h_later, h2) = accepted_step (required_findings found rest) _ m h1 in
    let same = accepted-injective _ m h2 in
    let (b1, b2) = append-nil first.block _ (ap (λ x. x.block) same ∙ b) in
    let (i1, i2) = append-nil first.invalid _ (ap (λ x. x.invalid) same ∙ i) in
    elim (Bool-cases (key == test_id)) [
      | inl here ↦
          let rule_here = Option.some-injective value rule (rw here at there) in
          rw ((eq_iff key test_id).0 here, rule_here) at
            (required_finding-IsMet found key value first h_first b1 i1)
      | inr apart ↦
          required_findings-IsMet found rest later test_id rule h_later b2 i2 (rw apart at there)
    ]

with_matrix-IsMet :
    (str : Json → String) (report required : Fields) (suffixes : Option Items)
    (m : MatrixAssessment)
    → with_matrix str report (some required) suffixes ≡ accepted m
    → m.block ≡ []
    → m.invalid ≡ []
    → (found : List (String × Fields)) × (findings report ≡ accepted found)
      × ((test_id : String) (rule : Json)
          → get? test_id required ≡ some rule
          → IsMet found test_id rule)
with_matrix-IsMet str report required none m h b i = absurd (ground arith)
with_matrix-IsMet str report required (some suffixes) m h b i =
    let (found, h_found, h1) = accepted_step (findings report) _ m h in
    let (first, h_first, h2) = accepted_step (required_findings found required) _ m h1 in
    let (later, h_later, h3) = accepted_step (other_findings str required suffixes found) _ m h2 in
    let same = accepted-injective _ m h3 in
    let (b1, b2) = append-nil first.block _ (ap (λ x. x.block) same ∙ b) in
    let (i1, i2) = append-nil first.invalid _ (ap (λ x. x.invalid) same ∙ i) in
    (
      found,
      h_found,
      λ test_id rule there.
          required_findings-IsMet found required first test_id rule h_first b1 i1 there,
    )

-- Where the matrix blocks nothing and invalidates nothing, every finding that the embedded file
-- requires is one of the report's, with the status and the observation that the file gives it.
pub matrix-IsMet :
    (str : Json → String) (expected_checks : StoredFile) (report expected required : Fields)
    (m : MatrixAssessment)
    → load expected_checks ≡ accepted expected
    → get "required_findings" expected ≡ object required
    → matrix str expected_checks report ≡ accepted m
    → m.block ≡ []
    → m.invalid ≡ []
    → (found : List (String × Fields)) × (findings report ≡ accepted found)
      × ((test_id : String) (rule : Json)
          → get? test_id required ≡ some rule
          → IsMet found test_id rule)
unfolding matrix
matrix-IsMet str expected_checks report expected required m loaded named h b i =
    with_matrix-IsMet str report required (as_array (get "conditional_suffixes" expected)) m
      (rw (loaded, named) at h) b i
