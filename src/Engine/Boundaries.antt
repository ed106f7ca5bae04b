-- ===== src/Engine/Boundaries.antt =====
-- When the tenant probes and the path checks of src/mcp_behaviour_guard/engine.py pass.
use mcp_behaviour_guard.Prelude.{
  ◌&&◌, ◌||◌, eq_iff, eqb, String, Bool, true, false, not, ◌≡◌, refl, ◌↔◌, List, [], ◌∷◌, ◌++◌,
  Option, none, some, arith, any, all, Bool-cases, inl, inr, ◌==◌, Option-cases,
}
use mcp_behaviour_guard.Prelude.Table.{fetch_all}
use mathlib.Core.List.{Memᴰ}
use mcp_behaviour_guard.Json.{Json, text}
use mcp_behaviour_guard.SavedRun.Finding.{passed, failed, error, Observation}
use mcp_behaviour_guard.Models.{TenantProbe, InvocationRecord}
use mcp_behaviour_guard.Client.{occurs_in}
use mcp_behaviour_guard.SavedRun.Value.{is_null}
use mcp_behaviour_guard.Engine.State.{Library, done}
use mcp_behaviour_guard.Engine.Access.{is_true, is_allow}
use mcp_behaviour_guard.Engine.Invoke.{is_sufficient}
use mcp_behaviour_guard.Engine.Tenant.{
  tenant_verdict, string_leaves, match_count, is_succeeded, is_text, has_outcome,
  confidentiality_assertion,
}
use mcp_behaviour_guard.Engine.Policy.{
  is_under, path_is_within, is_deny, resolved_within, within_roots, under_root,
}

-- No leaf of the response holds one of the values.
abbrev pub reveals_none : List String → Json → Bool
reveals_none values response =
    all (λ value. not (any (occurs_in value) (string_leaves response))) values

match_count_lem :
    (values : List String) (response : Json)
    → eqb (match_count values response) 0 ≡ reveals_none values response
unfolding match_count fetch_all
match_count_lem [] response = refl
match_count_lem (value ∷ values) response =
    elim (Bool-cases (any (occurs_in value) (string_leaves response))) [
      | inl e ↦ rw e (ground arith)
      | inr e ↦ rw (e, match_count_lem values response) refl
    ]

-- What the probe asks of the secrecy of the response.
abbrev pub keeps_secret : Option (List String) → Json → Bool
keeps_secret none response = true
keeps_secret (some values) response = reveals_none values response && not (is_null response)

abbrev pub leaks_secret : Option (List String) → Json → Bool
leaks_secret none response = false
leaks_secret (some values) response = not (reveals_none values response)

-- What it asks of the tenant of the resource.
abbrev pub is_owned : Option String → Json → Bool
is_owned none observed_tenant = true
is_owned (some tenant) observed_tenant = is_text tenant observed_tenant

confidentiality_lem :
    (confidentiality : Option (List String)) (response : Json)
    → let assertion = confidentiality_assertion confidentiality response in
      (has_outcome failed assertion ≡ leaks_secret confidentiality response)
      × ((not (has_outcome failed assertion) && not (has_outcome error assertion))
          ≡ keeps_secret confidentiality response)
unfolding confidentiality_assertion
confidentiality_lem none response = (refl, refl)
confidentiality_lem (some values) response = ground (arith, match_count_lem values response)

-- The tenant that the response names is another one.
abbrev pub is_foreign : Option String → Json → Bool
is_foreign none observed_tenant = false
is_foreign (some tenant) observed_tenant =
    not (is_null observed_tenant) && not (is_text tenant observed_tenant)

-- A tenant probe passes exactly when the observation may carry a verdict, no protected value occurs
-- in a leaf of the response and, where values are protected, there is a response, and the call was
-- denied to an identity that the access checks had seen allowed, where the probe requires denial, or
-- else succeeded and named the expected tenant, if there is one. It fails exactly when a protected
-- value occurs in the response, a call that had to be denied was allowed, or a successful one named
-- another tenant.
pub tenant_verdict_lem :
    (probe : TenantProbe) (expected : Option String) (invocation : InvocationRecord)
    (observed_tenant : Json) (positive_control : Bool) (observation : Observation)
    → let status =
        tenant_verdict probe expected invocation observed_tenant positive_control observation in
      let successful = is_true invocation.allowed && is_succeeded invocation.execution in
      ((status ≡ passed) ↔ (
        (is_sufficient observation
          && (keeps_secret probe.confidentiality invocation.response
              && (probe.require_denial && (is_deny invocation.authorization && positive_control)
                  || not probe.require_denial
                    && (successful && is_owned expected observed_tenant))))
        ≡ true))
      × ((status ≡ failed) ↔ (
          (leaks_secret probe.confidentiality invocation.response
            || (probe.require_denial && is_allow invocation.authorization
                || not probe.require_denial && (successful && is_foreign expected observed_tenant)))
          ≡ true))
unfolding tenant_verdict
tenant_verdict_lem probe expected invocation observed_tenant positive_control observation =
    ground (arith, confidentiality_lem probe.confidentiality invocation.response)

-- candidate is root with more parts behind it.
is_under_parts :
    (candidate root : List String)
    → is_under candidate root ≡ true
    → (rest : List String) × (candidate ≡ root ++ rest)
unfolding is_under
is_under_parts candidate [] h = (candidate, refl)
is_under_parts [] (part ∷ root) h = ground arith
is_under_parts (p ∷ candidate) (part ∷ root) h =
    let (rest, e) = is_under_parts candidate root (ground arith) in
    let same : p ≡ part = (eq_iff p part).0 (ground arith) in (rest, cc)

within_roots_lem :
    (library : Library) (candidate : List String) (roots : List String)
    → within_roots library candidate roots ≡ done true
    → (root : String) × Memᴰ root roots
      × (parts : List String) × (library.resolve_root root ≡ some parts)
      × (rest : List String) × (candidate ≡ parts ++ rest)
unfolding within_roots
within_roots_lem library candidate [] h = cc
within_roots_lem library candidate (root ∷ roots) h =
    elim (Option-cases (library.resolve_root root)) [
      | inl e ↦ cc (rw e at h)
      | inr (parts, e) ↦ elim (Bool-cases (is_under candidate parts)) [
        | inl under ↦
            let (rest, split) = is_under_parts candidate parts under in
            (root, Memᴰ.head refl, parts, e, rest, split)
        | inr apart ↦
            let later : within_roots library candidate roots ≡ done true =
              rw (e, under_root, apart) at h in
            let (found, member, parts, e', rest, split) =
              within_roots_lem library candidate roots later in
            (found, Memᴰ.tail member, parts, e', rest, split)
      ]
    ]

resolved_within_lem :
    (library : Library) (resolved : Option (List String)) (roots : List String)
    → resolved_within library resolved roots ≡ done true
    → (candidate : List String) × (resolved ≡ some candidate)
      × (root : String) × Memᴰ root roots
      × (parts : List String) × (library.resolve_root root ≡ some parts)
      × (rest : List String) × (candidate ≡ parts ++ rest)
resolved_within_lem library none roots h = cc
resolved_within_lem library (some candidate) roots h =
    let (root, member, parts, e, rest, split) = within_roots_lem library candidate roots h in
    (candidate, refl, root, member, parts, e, rest, split)

-- A value of the response that the path check accepts is a text that resolves, and what it resolves
-- to is one of the allowed roots, resolved, with perhaps more parts behind it.
pub path_is_within_sound :
    (library : Library) (value : Json) (roots : List String)
    → path_is_within library value roots ≡ done true
    → (s : String) × (value ≡ text s)
      × (candidate : List String) × (library.resolve s ≡ some candidate)
      × (root : String) × Memᴰ root roots
      × (parts : List String) × (library.resolve_root root ≡ some parts)
      × (rest : List String) × (candidate ≡ parts ++ rest)
unfolding path_is_within
path_is_within_sound library (text s) roots h = elim (Bool-cases (s == "")) [
  | inl empty ↦ cc (rw empty at h)
  | inr visible ↦
      let (candidate, resolved, root, member, parts, e, rest, split) =
        resolved_within_lem library (library.resolve s) roots (rw visible at h) in
      (s, refl, candidate, resolved, root, member, parts, e, rest, split)
]
path_is_within_sound library Json.null roots h = cc
path_is_within_sound library (Json.boolean b) roots h = cc
path_is_within_sound library (Json.integer n) roots h = cc
path_is_within_sound library (Json.float x) roots h = cc
path_is_within_sound library (Json.array xs) roots h = cc
path_is_within_sound library (Json.object fs) roots h = cc
