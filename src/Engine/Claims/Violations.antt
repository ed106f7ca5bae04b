-- ===== src/Engine/Claims/Violations.antt =====
-- What the violations of src/mcp_behaviour_guard/engine.py are, said of each event alone.
use mcp_behaviour_guard.Prelude.{
  String, Bool, true, false, ◌≡◌, refl, ◌&&◌, Option, none, some, List, [], ◌∷◌, all, is_empty, inl,
  inr, Bool-cases,
}
use mcp_behaviour_guard.Models.{ToolContract}
use mcp_behaviour_guard.Engine.Claims.{
  deny_all, allowlist, EffectClaim, find_claim, ClaimMode, effect_claims, Matching,
  violation_reason, side_effect_violations, matches_any, allowlist_rule, detail_text,
  allowlist_reason, reason_by, Violation, add_violation,
}
use mcp_behaviour_guard.Correlation.{SideEffectEvent}
use mcp_behaviour_guard.Json.{get?}
use mcp_behaviour_guard.Engine.Claims.Meaning.{
  Ban, everything, all_but, ban_of, ban_by, contract_ban, find_claim-effect_claims,
}

abbrev pub any_match : Matching → Option (String × String) → List String → SideEffectEvent → Bool
any_match matching none patterns event = false
any_match matching (some (detail_key, reason)) patterns event =
    matches_any matching (detail_text matching (get? detail_key event.details)) patterns

-- The event is one that the ban lets through.
abbrev pub respects : Matching → Option Ban → SideEffectEvent → Bool
respects matching none event = true
respects matching (some everything) event = false
respects matching (some (all_but patterns)) event =
    any_match matching (allowlist_rule event.kind) patterns event

abbrev is_none : Option String → Bool
is_none none = true
is_none (some s) = false

allowlist_reason-none :
    (matching : Matching) (rule : Option (String × String)) (patterns : List String)
    (event : SideEffectEvent)
    → is_none (allowlist_reason matching rule patterns event)
      ≡ any_match matching rule patterns event
unfolding allowlist_reason
allowlist_reason-none matching none patterns event = refl
allowlist_reason-none matching (some (detail_key, reason)) patterns event =
    elim (Bool-cases (any_match matching (some (detail_key, reason)) patterns event)) [
      | inl h ↦ rw h refl
      | inr h ↦ rw h refl
    ]

reason_by-none :
    (matching : Matching) (mode : ClaimMode) (patterns sources : List String)
    (event : SideEffectEvent)
    → is_none (reason_by matching mode patterns sources event)
      ≡ respects matching (ban_by mode patterns) event
unfolding reason_by
reason_by-none matching deny_all patterns sources event = refl
reason_by-none matching allowlist patterns sources event =
    allowlist_reason-none matching (allowlist_rule event.kind) patterns event

is_empty-add_violation :
    (reason : Option String) (event : SideEffectEvent) (rest : List Violation)
    → is_empty (add_violation reason event rest) ≡ (is_none reason && is_empty rest)
is_empty-add_violation none event rest = refl
is_empty-add_violation (some reason) event rest = refl

violation_reason-none :
    (matching : Matching) (claim : Option EffectClaim) (event : SideEffectEvent)
    → is_none (violation_reason matching claim event) ≡ respects matching (ban_of claim) event
unfolding violation_reason
violation_reason-none matching none event = refl
violation_reason-none matching (some claim) event =
    reason_by-none matching claim.mode claim.patterns claim.sources event

-- No violation is found exactly when every event respects what the contract says of its kind.
pub side_effect_violations_lem :
    (matching : Matching) (contract : ToolContract) (events : List SideEffectEvent)
    → is_empty (side_effect_violations matching contract events)
      ≡ all (λ event. respects matching (contract_ban contract event.kind) event) events
unfolding side_effect_violations
side_effect_violations_lem matching contract [] = refl
side_effect_violations_lem matching contract (event ∷ events) =
    rw
      (
        is_empty-add_violation
            (violation_reason matching (find_claim event.kind (effect_claims contract)) event) event
            _,
        violation_reason-none matching (find_claim event.kind (effect_claims contract)) event,
        find_claim-effect_claims contract event.kind,
        side_effect_violations_lem matching contract events,
      )
      refl
