-- ===== src/Engine/Coverage.antt =====
-- What `_observer_coverage` of src/mcp_behaviour_guard/engine.py promises by `complete`.
use mcp_behaviour_guard.Prelude.{
  ◌&&◌, ◌||◌, Bool, true, false, not, ◌≡◌, refl, ◌↔◌, List, [], ◌∷◌, ◌++◌, some, arith, any, all,
  is_empty, Bool-cases, inl, inr,
}
use mcp_behaviour_guard.Prelude.Table.{fetch_all}
use mcp_behaviour_guard.SavedRun.Finding.{complete, unavailable}
use mcp_behaviour_guard.Models.{SideEffectKind, has_kind}
use mcp_behaviour_guard.Engine.Observing.{
  ObserverHandle, Errors, is_healthy, complete_kinds, all_complete_kinds, is_subset, coverage_of,
  observer_coverage,
}

-- An observer without an error observes every effect of the kind.
abbrev pub is_watched : List ObserverHandle → Errors → SideEffectKind → Bool
is_watched observers errors kind =
    any (λ h. is_healthy errors h && has_kind (complete_kinds h) kind) observers

has_kind-append :
    (xs ys : List SideEffectKind) (kind : SideEffectKind)
    → has_kind (xs ++ ys) kind ≡ (has_kind xs kind || has_kind ys kind)
has_kind-append [] ys kind = refl
has_kind-append (x ∷ xs) ys kind = ground (arith, has_kind-append xs ys kind)

has_kind-all_complete_kinds :
    (observers : List ObserverHandle) (errors : Errors) (kind : SideEffectKind)
    → has_kind (all_complete_kinds (fetch_all (is_healthy errors) observers)) kind
      ≡ is_watched observers errors kind
unfolding fetch_all
has_kind-all_complete_kinds [] errors kind = refl
has_kind-all_complete_kinds (h ∷ rest) errors kind = elim (Bool-cases (is_healthy errors h)) [
  | inl e ↦
      rw
        (
          e,
          has_kind-append (complete_kinds h)
              (all_complete_kinds (fetch_all (is_healthy errors) rest)) kind,
          has_kind-all_complete_kinds rest errors kind,
        )
        refl
  | inr e ↦ rw (e, has_kind-all_complete_kinds rest errors kind) refl
]

is_subset-all_complete_kinds :
    (observers : List ObserverHandle) (errors : Errors) (required : List SideEffectKind)
    → is_subset required (all_complete_kinds (fetch_all (is_healthy errors) observers))
      ≡ all (is_watched observers errors) required
is_subset-all_complete_kinds observers errors [] = refl
is_subset-all_complete_kinds observers errors (kind ∷ required) =
    rw
      (
        has_kind-all_complete_kinds observers errors kind,
        is_subset-all_complete_kinds observers errors required,
      )
      refl

any-fetch_all :
    (observers : List ObserverHandle) (errors : Errors)
    → is_empty (fetch_all (is_healthy errors) observers) ≡ not (any (is_healthy errors) observers)
unfolding fetch_all
any-fetch_all [] errors = refl
any-fetch_all (h ∷ rest) errors = elim (Bool-cases (is_healthy errors h)) [
  | inl e ↦ rw e refl
  | inr e ↦ rw (e, any-fetch_all rest errors) refl
]

coverage_of_lem :
    (healthy : List ObserverHandle) (errors : Errors) (required : List SideEffectKind)
    → ((coverage_of healthy errors (some required) ≡ complete)
        ↔ ((not (is_empty healthy) && is_subset required (all_complete_kinds healthy)) ≡ true))
      × ((coverage_of healthy errors (some required) ≡ unavailable) ↔ (is_empty healthy ≡ true))
unfolding coverage_of
coverage_of_lem [] errors required = ground arith
coverage_of_lem (h ∷ rest) errors required = ground arith

-- The coverage of required kinds of effects is complete exactly when some observer has no error and
-- each of the kinds is completely observed by an observer without an error; it is unavailable
-- exactly when every observer has an error.
pub observer_coverage_lem :
    (observers : List ObserverHandle) (errors : Errors) (required : List SideEffectKind)
    → let coverage = observer_coverage observers errors (some required) in
      ((coverage ≡ complete) ↔ (
        (any (is_healthy errors) observers && all (is_watched observers errors) required) ≡ true))
      × ((coverage ≡ unavailable) ↔ (any (is_healthy errors) observers ≡ false))
unfolding observer_coverage
observer_coverage_lem observers errors required = ground (
  arith,
  coverage_of_lem (fetch_all (is_healthy errors) observers) errors required,
  any-fetch_all observers errors,
  is_subset-all_complete_kinds observers errors required,
)
