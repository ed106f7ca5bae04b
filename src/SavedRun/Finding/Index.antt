-- ===== src/SavedRun/Finding/Index.antt =====
-- What `_index_saved_findings` of src/mcp_behaviour_guard/baseline.py keeps of a report's findings.
use mcp_behaviour_guard.Prelude.{==_comm_false, Bool-cases, inl, inr, ◌∙◌}
use mcp_behaviour_guard.Prelude.{
  ◌++◌, ◌==◌, String, List, Bool, contains, ◌≡◌, true, ◌∷◌, false, not, ◌&&◌, [], ap, sym, refl,
  ◌||◌, arith,
}
use mcp_behaviour_guard.SavedRun.Finding.{
  nonempty, read_finding, SavedFinding, ids, ok, index_from, index_items, index_saved_findings,
  in_set, status_of, severity_of, observation_of,
}
use mcp_behaviour_guard.Json.{
  Json, Items, array, Fields, boolean, integer, cons, float, text, object, null, nil,
}
use mcp_behaviour_guard.SavedRun.Error.{Loaded, err, >>=-eq-ok, require, require-ok}
use mcp_behaviour_guard.SavedRun.Value.{get}

-- No text stands twice.
abbrev pub distinct : List String → Bool
distinct [] = true
distinct (x ∷ xs) = not (contains xs x) && distinct xs

contains-snoc :
    (xs : List String) (x y : String)
    → contains (xs ++ x ∷ []) y ≡ (contains xs y || contains (x ∷ []) y)
contains-snoc [] x y = refl
contains-snoc (z ∷ xs) x y = ground (arith, contains-snoc xs x y)

contains-one : (x y : String) → contains (x ∷ []) y ≡ (y == x)
contains-one x y = elim (Bool-cases (y == x)) [ inl e ↦ rw e refl | inr e ↦ rw e refl ]

named-snoc :
    (xs : List String) (x : String)
    → contains xs "" ≡ false
    → (x == "") ≡ false
    → contains (xs ++ x ∷ []) "" ≡ false
named-snoc xs x named full =
    contains-snoc xs x "" ∙ rw (named, contains-one x "") (==_comm_false x "" full)

distinct-snoc :
    (xs : List String) (x : String)
    → distinct xs ≡ true
    → contains xs x ≡ false
    → distinct (xs ++ x ∷ []) ≡ true
distinct-snoc [] x unique fresh = refl
distinct-snoc (y ∷ xs) x unique fresh =
    ground (arith, contains-snoc xs x y, distinct-snoc xs x, ==_comm_false x y, contains-one x y)

ids-snoc :
    (findings : List SavedFinding) (f : SavedFinding)
    → ids (findings ++ f ∷ []) ≡ ids findings ++ f.test_id ∷ []
ids-snoc [] f = refl
ids-snoc (x ∷ xs) f = ap (λ r. x.test_id ∷ r) (ids-snoc xs f)

nonempty-eq_ok :
    (message : String) (v : Json) {s : String} → nonempty message v ≡ ok s → (s == "") ≡ false
unfolding nonempty
nonempty-eq_ok message (text t) h = ground arith
nonempty-eq_ok message null h = cc
nonempty-eq_ok message (boolean b) h = cc
nonempty-eq_ok message (integer n) h = cc
nonempty-eq_ok message (float n) h = cc
nonempty-eq_ok message (array xs) h = cc
nonempty-eq_ok message (object fs) h = cc

abbrev identifier : Loaded SavedFinding → String
identifier (ok f) = f.test_id
identifier (err e) = ""

-- A finding that is read has an identifier that is not empty and not yet in the index.
read_finding-fresh :
    (findings : List SavedFinding) (raw : Json) {finding : SavedFinding}
    → read_finding findings raw ≡ ok finding
    → (contains (ids findings) finding.test_id ≡ false) × ((finding.test_id == "") ≡ false)
unfolding read_finding
read_finding-fresh findings (object raw) {finding} h =
    let (i, named, h1) =
      >>=-eq-ok (nonempty "report contains a finding without test_id" (get "test_id" raw)) _ h in
    let (u, fresh, h2) =
      >>=-eq-ok (require (not (contains (ids findings) i)) "report contains duplicate finding id") _
        h1 in
    let (s, known, h3) =
      >>=-eq-ok (in_set status_of "finding has unsupported status" (get "status" raw)) _ h2 in
    let (v, graded, h4) =
      >>=-eq-ok (in_set severity_of "finding has unsupported severity" (get "severity" raw)) _ h3 in
    let (o, observed, h5) =
      >>=-eq-ok
        (in_set observation_of "finding has unsupported observation" (get "observation" raw)) _
        h4 in
    let same : i ≡ finding.test_id = ap identifier h5 in
    let new =
      require-ok (not (contains (ids findings) i)) "report contains duplicate finding id" fresh in
    let full =
      nonempty-eq_ok "report contains a finding without test_id" (get "test_id" raw) named in
    (rw (sym same) (ground (arith, new)), rw (sym same) full)
read_finding-fresh findings null h = cc
read_finding-fresh findings (boolean b) h = cc
read_finding-fresh findings (integer n) h = cc
read_finding-fresh findings (float n) h = cc
read_finding-fresh findings (text t) h = cc
read_finding-fresh findings (array xs) h = cc

abbrev indexed_of : Loaded (List SavedFinding) → List SavedFinding
indexed_of (ok findings) = findings
indexed_of (err e) = []

index_from-distinct :
    (findings : List SavedFinding) (items : Items) {indexed : List SavedFinding}
    → distinct (ids findings) ≡ true
    → contains (ids findings) "" ≡ false
    → index_from findings items ≡ ok indexed
    → (distinct (ids indexed) ≡ true) × (contains (ids indexed) "" ≡ false)
unfolding index_from
index_from-distinct findings nil {indexed} unique named h =
    let same : findings ≡ indexed = ap indexed_of h in (rw (sym same) unique, rw (sym same) named)
index_from-distinct findings (cons raw rest) unique named h =
    let (finding, found, h1) = >>=-eq-ok (read_finding findings raw) _ h in
    let (fresh, full) = read_finding-fresh findings raw found in
    let still = named-snoc (ids findings) finding.test_id named full in
    index_from-distinct (findings ++ finding ∷ []) rest
      (rw (ids-snoc findings finding) (distinct-snoc (ids findings) finding.test_id unique fresh))
      (rw (ids-snoc findings finding) still) h1

index_items-distinct :
    (v : Json) {findings : List SavedFinding}
    → index_items v ≡ ok findings
    → (distinct (ids findings) ≡ true) × (contains (ids findings) "" ≡ false)
unfolding index_items
index_items-distinct (array items) h = index_from-distinct [] items refl refl h
index_items-distinct null h = cc
index_items-distinct (boolean b) h = cc
index_items-distinct (integer n) h = cc
index_items-distinct (float n) h = cc
index_items-distinct (text t) h = cc
index_items-distinct (object fs) h = cc

-- When a report's findings are indexed, no identifier is empty and none stands twice.
pub index_saved_findings-distinct :
    (report : Fields) {findings : List SavedFinding}
    → index_saved_findings report ≡ ok findings
    → (distinct (ids findings) ≡ true) × (contains (ids findings) "" ≡ false)
unfolding index_saved_findings
index_saved_findings-distinct report h = index_items-distinct (get "findings" report) h
