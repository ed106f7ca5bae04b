-- ===== src/SavedRun/Comparability/Agree.antt =====
-- When `_saved_run_comparability` of src/mcp_behaviour_guard/baseline.py calls two runs comparable.
use mcp_behaviour_guard.Prelude.{
  String, Bool, true, false, not, ◌≡◌, refl, ◌∙◌, ◌↔◌, ◌&&◌, ◌||◌, is_empty, any, all, List, [],
  ◌∷◌, ◌++◌, arith, if◌then◌else◌, sym, contains, ap, both_true,
}
use mcp_behaviour_guard.Json.{Json, Fields}
use mcp_behaviour_guard.SavedRun.Comparability.{
  FieldPath, Notes, note_unsupported, note_context, note_information, each_field, state_of,
  saved_run_comparability, dotted, comparable, collect_notes, unsupported_fields,
  changed_context_fields, ComparisonState, no_notes, is_unknown_capable, informational_fields,
  one_is_null, names, unsupported, changed_context,
}
use mcp_behaviour_guard.SavedRun.Value.{is_null, json_eq}
use mcp_behaviour_guard.SavedRun.Error.{ok}
use mcp_behaviour_guard.SavedRun.Receipt.{validate_receipt_v1}
use mcp_behaviour_guard.SavedRun.Receipt.Known.{is_settled, validate_receipt_v1-is_settled}

-- The two values of a field raise no reason: both are known and equal, or one is null and, where
-- the field may be unknown, the other is too.
abbrev agrees : FieldPath → Json → Json → Bool
agrees path before after =
    if is_null before || is_null after
    then not (is_unknown_capable path && one_is_null before after)
    else json_eq before after

abbrev agree_at : Fields → Fields → FieldPath → Bool
agree_at reference candidate path = agrees path (dotted reference path) (dotted candidate path)

abbrev quiet : Notes → Bool
quiet notes = is_empty notes.reasons && is_empty notes.asymmetric_unknown_fields

is_empty-append : (xs : List String) (x : String) → is_empty (xs ++ x ∷ []) ≡ false
is_empty-append [] x = refl
is_empty-append (y ∷ xs) x = refl

quiet-unsupported :
    (path : FieldPath) (before after : Json) (notes : Notes)
    → quiet (note_unsupported path before after notes) ≡ (quiet notes && agrees path before after)
unfolding note_unsupported
quiet-unsupported path before after notes = ground (
  arith,
  is_empty-append notes.reasons path.name,
  is_empty-append notes.asymmetric_unknown_fields path.name,
)

quiet-context :
    (path : FieldPath) (before after : Json) (notes : Notes)
    → quiet (note_context path before after notes) ≡ (quiet notes && agrees path before after)
unfolding note_context
quiet-context path before after notes = ground (
  arith,
  is_empty-append notes.reasons path.name,
  is_empty-append notes.asymmetric_unknown_fields path.name,
)

quiet-information :
    (path : FieldPath) (before after : Json) (notes : Notes)
    → quiet (note_information path before after notes) ≡ quiet notes
unfolding note_information
quiet-information path before after notes = ground arith

module _ (reference candidate : Fields) where
  quiet-each_field :
      (round : FieldPath → Json → Json → Notes → Notes) (paths : List FieldPath) (notes : Notes)
      → ((path : FieldPath) (before after : Json) (n : Notes)
          → quiet (round path before after n) ≡ (quiet n && agrees path before after))
      → quiet (each_field round paths reference candidate notes)
        ≡ (quiet notes && all (agree_at reference candidate) paths)
  unfolding each_field
  quiet-each_field round [] notes step = ground arith
  quiet-each_field round (path ∷ paths) notes step =
      let b = dotted reference path in
      let a = dotted candidate path in
      ground (arith, step path b a notes, quiet-each_field round paths (round path b a notes) step)

  quiet_information-each_field :
      (paths : List FieldPath) (notes : Notes)
      → quiet (each_field note_information paths reference candidate notes) ≡ quiet notes
  unfolding each_field
  quiet_information-each_field [] notes = refl
  quiet_information-each_field (path ∷ paths) notes =
      let b = dotted reference path in
      let a = dotted candidate path in
      quiet_information-each_field paths (note_information path b a notes)
      ∙ quiet-information path b a notes

abbrev state_of_lists : List String → List String → ComparisonState
state_of_lists reasons asymmetric =
    if not (is_empty asymmetric) || any (contains (names unsupported_fields)) reasons
    then unsupported
    else if not (is_empty reasons)
    then changed_context
    else comparable

state_of_lists-comparable :
    (reasons asymmetric : List String)
    → (state_of_lists reasons asymmetric ≡ comparable)
      ↔ ((is_empty reasons && is_empty asymmetric) ≡ true)
state_of_lists-comparable [] [] = (λ h. refl, λ h. refl)
state_of_lists-comparable [] (a ∷ others) = (λ h. cc, λ h. cc)
state_of_lists-comparable (r ∷ rs) asymmetric = (λ h. ground arith, λ h. cc)

state_of-comparable : (notes : Notes) → (state_of notes ≡ comparable) ↔ (quiet notes ≡ true)
unfolding state_of
state_of-comparable notes = state_of_lists-comparable notes.reasons notes.asymmetric_unknown_fields

all-append :
    {A : Type 0} (p : A → Bool) (xs ys : List A) → all p (xs ++ ys) ≡ (all p xs && all p ys)
all-append p [] ys = refl
all-append p (x ∷ xs) ys = ground (arith, all-append p xs ys)

quiet-collect_notes :
    (reference candidate : Fields)
    → quiet (collect_notes reference candidate) ≡ (
        all (agree_at reference candidate) unsupported_fields
        && all (agree_at reference candidate) changed_context_fields)
unfolding collect_notes
quiet-collect_notes reference candidate =
    let first = each_field note_unsupported unsupported_fields reference candidate no_notes in
    let second = each_field note_context changed_context_fields reference candidate first in
    quiet_information-each_field reference candidate informational_fields second
    ∙ quiet-each_field reference candidate note_context changed_context_fields first quiet-context
    ∙ ap (λ q. q && all (agree_at reference candidate) changed_context_fields)
        (quiet-each_field reference candidate note_unsupported unsupported_fields no_notes
          quiet-unsupported)

abbrev compared_fields : List FieldPath
compared_fields = unsupported_fields ++ changed_context_fields

comparable-agree_at :
    (reference candidate : Fields)
    → ((saved_run_comparability reference candidate).state ≡ comparable)
      ↔ (all (agree_at reference candidate) compared_fields ≡ true)
unfolding saved_run_comparability
comparable-agree_at reference candidate =
    let notes = collect_notes reference candidate in
    let whole =
      quiet-collect_notes reference candidate
      ∙ sym (all-append (agree_at reference candidate) unsupported_fields changed_context_fields) in
    (
      λ h. sym whole ∙ (state_of-comparable notes).0 h,
      λ h. (state_of-comparable notes).1 (whole ∙ h),
    )

-- Whether the two receipts have equal values in a field, a null or missing one being `None`.
abbrev pub is_equal_at : Fields → Fields → FieldPath → Bool
is_equal_at reference candidate path = json_eq (dotted reference path) (dotted candidate path)

json_eq-null : (v : Json) → is_null v ≡ false → json_eq v Json.null ≡ false
unfolding json_eq
json_eq-null v h = ground arith

-- Where a null is not allowed unless the field may be unknown, agreement is equality.
agrees-json_eq :
    (path : FieldPath) (before after : Json)
    → (is_unknown_capable path || not (is_null before)) ≡ true
    → (is_unknown_capable path || not (is_null after)) ≡ true
    → agrees path before after ≡ json_eq before after
unfolding json_eq
agrees-json_eq path Json.null after h k = ground arith
agrees-json_eq path before after h k = ground (arith, json_eq-null before)

all-agree_at :
    (reference candidate : Fields) (paths : List FieldPath)
    → all (is_settled reference) paths ≡ true
    → all (is_settled candidate) paths ≡ true
    → all (agree_at reference candidate) paths ≡ all (is_equal_at reference candidate) paths
all-agree_at reference candidate [] h k = refl
all-agree_at reference candidate (path ∷ paths) h k =
    let (h_here, h_rest) = both_true (is_settled reference path) _ h in
    let (k_here, k_rest) = both_true (is_settled candidate path) _ k in
    rw (
      agrees-json_eq path (dotted reference path) (dotted candidate path) h_here k_here,
      all-agree_at reference candidate paths h_rest k_rest,
    )

-- Two receipts that validate are comparable exactly when they are equal in each of the thirteen
-- fields that name the target, the policy, the observers, the fixture, the runner and the checks. In
-- a field that may be unknown, two nulls are equal, and a null on one side only is a difference.
pub comparable_iff :
    (reference candidate : Fields)
    → validate_receipt_v1 reference ≡ ok tt
    → validate_receipt_v1 candidate ≡ ok tt
    → ((saved_run_comparability reference candidate).state ≡ comparable) ↔ (
        all (is_equal_at reference candidate) (unsupported_fields ++ changed_context_fields) ≡ true)
comparable_iff reference candidate h k =
    let known = validate_receipt_v1-is_settled reference h in
    let known' = validate_receipt_v1-is_settled candidate k in
    rw (sym (all-agree_at reference candidate compared_fields known known'))
      (comparable-agree_at reference candidate)
