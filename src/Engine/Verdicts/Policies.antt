-- ===== src/Engine/Verdicts/Policies.antt =====
-- When a policy probe of src/mcp_behaviour_guard/engine.py passes and when it fails, said of its
-- checks and of the call that it made.
use mcp_behaviour_guard.Prelude.{
  String, Bool, false, List, [], ◌∷◌, ◌++◌, map, any, ◌≡◌, ◌&&◌, ◌||◌, arith, refl, Bool-cases, ap,
  inl, sym, ◌↔◌, inr, not, ◌∙◌, true,
}
use mcp_behaviour_guard.Models.{
  InvocationRecord, PolicyCheck, response_not_contains_env, response_not_contains, path_within,
  denied_check,
}
use mcp_behaviour_guard.Util.{Found, found, get_path}
use mcp_behaviour_guard.Engine.State.{Library, Raised, raise, done, EngineError}
use mcp_behaviour_guard.Engine.Policy.{
  environment_value, path_is_within, not_raised, check_violated, is_denied_check, leaks, or_raised,
  policy_status, any_violated, is_deny,
}
use mcp_behaviour_guard.Engine.Access.{is_true}
use mcp_behaviour_guard.SavedRun.Finding.{Observation, passed, failed}
use mcp_behaviour_guard.Engine.Invoke.{is_sufficient}

module _ (library : Library) (environment : List (String × String)) where
  -- The texts that a check forbids in the response.
  abbrev pub forbidden : PolicyCheck → List String
  forbidden (response_not_contains_env names) = map (environment_value library environment) names
  forbidden (response_not_contains values) = values
  forbidden _ = []

  -- All that the checks forbid.
  unfoldable pub forbidden_values : List PolicyCheck → List String
  forbidden_values [] = []
  forbidden_values (check ∷ checks) = forbidden check ++ forbidden_values checks

abbrev pub holds : Raised Bool → Bool
holds (done b) = b
holds (raise e) = false

-- The path of the response that a check names is tested, and is within none of its roots.
abbrev pub is_outside : Library → List String → Found → Bool
is_outside library roots (found value) = holds (not_raised (path_is_within library value roots))
is_outside library roots Found.index_error = false

abbrev pub strays : Library → InvocationRecord → PolicyCheck → Bool
strays library invocation (path_within path roots) =
    is_outside library roots (get_path invocation.response path)
strays library invocation _ = false

any-append :
    (test : String → Bool) (xs ys : List String)
    → any test (xs ++ ys) ≡ (any test xs || any test ys)
any-append test [] ys = refl
any-append test (x ∷ xs) ys = ground (arith, any-append test xs ys)

any-map :
    (test : String → Bool) (f : String → String) (xs : List String)
    → any test (map f xs) ≡ any (λ x. test (f x)) xs
any-map test f [] = refl
any-map test f (x ∷ xs) = ground (arith, any-map test f xs)

spread :
    (a d ds l ls p ps : Bool)
    → ((a && d || (l || a && p)) || (a && ds || (ls || a && ps)))
      ≡ (a && (d || ds) || ((l || ls) || a && (p || ps)))
spread true d ds l ls p ps = ground arith
spread false d ds l ls p ps = ground arith

path_lem :
    (library : Library) (roots : List String) (value : Found)
    → holds (elim value [
      | found raw_path ↦ not_raised (path_is_within library raw_path roots)
      | Found.index_error ↦ raise EngineError.index_error
    ])
      ≡ is_outside library roots value
path_lem library roots (found value) = refl
path_lem library roots Found.index_error = refl

-- Two checks that return are joined by their results.
or_raised_done :
    (first later : Raised Bool) {joined : Bool}
    → or_raised first later ≡ done joined
    → (b : Bool) × (c : Bool) × (first ≡ done b) × (later ≡ done c) × (joined ≡ (b || c))
or_raised_done (raise e) later h = cc
or_raised_done (done b) (raise e) h = cc
or_raised_done (done b) (done c) h = (b, c, refl, refl, ap holds (sym h))

status_lem :
    (violated denial_expected : Bool) (invocation : InvocationRecord) (positive_control : Bool)
    (observation : Observation)
    → let status = policy_status violated denial_expected invocation positive_control observation in
      ((status ≡ passed) ↔ (
        (not violated
          && (is_sufficient observation
              && (denial_expected && (is_deny invocation.authorization && positive_control)
                  || not denial_expected && is_true invocation.allowed)))
        ≡ true))
      × ((status ≡ failed) ↔ (violated ≡ true))
unfolding policy_status
status_lem violated denial_expected invocation positive_control observation = ground arith

module _ (library : Library) (environment : List (String × String))
    (invocation : InvocationRecord) where
  -- What the checks forbid and what the call did, together: a denial was expected and the call was
  -- allowed, a forbidden text occurs in the response, or the call was allowed and a path strays.
  abbrev pub is_breached : List PolicyCheck → Bool
  is_breached checks =
      is_true invocation.allowed && any is_denied_check checks
      || (any (leaks (library.json_text invocation.response))
            (forbidden_values library environment checks)
          || is_true invocation.allowed && any (strays library invocation) checks)

  check_violated_lem :
      (check : PolicyCheck)
      → holds (check_violated library environment invocation check) ≡ (
          is_true invocation.allowed && is_denied_check check
          || (any
                (leaks (library.json_text invocation.response))
                (forbidden library environment check)
              || is_true invocation.allowed && strays library invocation check))
  unfolding check_violated
  check_violated_lem denied_check = ground arith
  check_violated_lem (response_not_contains_env names) =
      let text = library.json_text invocation.response in
      ground (arith, any-map (leaks text) (environment_value library environment) names)
  check_violated_lem (response_not_contains values) = ground arith
  check_violated_lem (path_within path roots) = elim (Bool-cases (is_true invocation.allowed)) [
    | inl e ↦ rw e (path_lem library roots (get_path invocation.response path))
    | inr e ↦ rw e refl
  ]

  any_violated_lem :
      (checks : List PolicyCheck) {violated : Bool}
      → any_violated library environment invocation checks ≡ done violated
      → violated ≡ is_breached checks
  unfolding any_violated forbidden_values
  any_violated_lem [] {violated} h = let e : false ≡ violated = ap holds h in ground arith
  any_violated_lem (check ∷ checks) {violated} h =
      let (b, c, here, rest, joined) =
        or_raised_done _ (any_violated library environment invocation checks) h in
      let first : b ≡ _ = ap holds (sym here) ∙ check_violated_lem check in
      let others : c ≡ is_breached checks = any_violated_lem checks {violated = c} rest in
      let text = library.json_text invocation.response in
      let allowed = is_true invocation.allowed in
      joined
      ∙ rw (first, others)
          (rw
            (any-append (leaks text) (forbidden library environment check)
              (forbidden_values library environment checks))
            (spread allowed (is_denied_check check) (any is_denied_check checks)
              (any (leaks text) (forbidden library environment check))
              (any (leaks text) (forbidden_values library environment checks))
              (strays library invocation check) (any (strays library invocation) checks)))

-- A policy probe whose checks all return passes exactly when none of them is breached, the
-- observation may carry a verdict, and the call was allowed, or, where a check expects denial, was
-- denied to an identity that the access checks had seen allowed. It fails exactly when a check is
-- breached: a call that had to be denied was allowed, a text that a check forbids, given or the
-- value of a variable of the environment, occurs in the response, or the call was allowed and the
-- path that a check names is within none of its roots.
pub policy_status_lem :
    (library : Library) (environment : List (String × String)) (invocation : InvocationRecord)
    (checks : List PolicyCheck) (positive_control : Bool) (observation : Observation)
    {violated : Bool}
    → any_violated library environment invocation checks ≡ done violated
    → let denial_expected = any is_denied_check checks in
      let breached = is_breached library environment invocation checks in
      let status = policy_status violated denial_expected invocation positive_control observation in
      ((status ≡ passed) ↔ (
        (not breached
          && (is_sufficient observation
              && (denial_expected && (is_deny invocation.authorization && positive_control)
                  || not denial_expected && is_true invocation.allowed)))
        ≡ true))
      × ((status ≡ failed) ↔ (breached ≡ true))
policy_status_lem library environment invocation checks positive_control observation {violated} h =
    rw (sym (any_violated_lem library environment invocation checks h))
      (status_lem violated (any is_denied_check checks) invocation positive_control observation)
