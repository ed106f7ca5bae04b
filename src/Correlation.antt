-- ===== src/Correlation.antt =====
-- src/mcp_behaviour_guard/correlation.py: the metadata that ties an observed event to the run and
-- the operation that caused it, the attribution of events by it, and its removal from values. A
-- value is one that JSON can hold, so a tuple is its list.
pub mod Strip
pub mod Scope
pub mod Tests
use mcp_behaviour_guard.Prelude.{
  String, Bool, true, false, ◌&&◌, Option, none, some, List, [], ◌∷◌, ◌++◌, contains, ◌==◌,
  if◌then◌else◌, eqb, any, map,
}
use mcp_behaviour_guard.Prelude.Int.{pos}
use mcp_behaviour_guard.Json.{
  Json, null, integer, text, array, object, Items, nil, cons, Fields, end, field, get?, boolean,
  float,
}
use mcp_behaviour_guard.Prelude.Table.{fetch_all}
use mcp_behaviour_guard.Models.{SideEffectKind}

-- CORRELATION_META_KEY
abbrev pub correlation_meta_key : String
correlation_meta_key = "io.github.hacker-vs-cracker.mcp-behaviour-guard/correlation"

abbrev pub envelope_of : String → String → Fields
envelope_of run_id operation_id =
    field "version" (integer (pos 1))
      (field "run_id" (text run_id) (field "guard_operation_id" (text operation_id) end))

unfoldable pub build_correlation_meta : String → String → Fields
build_correlation_meta run_id operation_id =
    field correlation_meta_key (object (envelope_of run_id operation_id)) end

-- What `getattr` gives of an observer: its own attribute, its `spec`'s, and its name.
pub record Observer : Type 0 where
  pub name : String
  pub correlation : Json
  pub configured : Json

unfoldable pub text_or_none : Json → String
text_or_none (text s) = s
text_or_none _ = "none"

unfoldable pub observer_correlation_mode : Observer → String
unfolding text_or_none
observer_correlation_mode observer = elim observer.correlation [
  | text direct ↦ direct
  | null ↦ text_or_none observer.configured
  | boolean _ ↦ text_or_none observer.configured
  | integer _ ↦ text_or_none observer.configured
  | float _ ↦ text_or_none observer.configured
  | array _ ↦ text_or_none observer.configured
  | object _ ↦ text_or_none observer.configured
]

abbrev pub is_mcp_meta : Observer → Bool
is_mcp_meta observer = observer_correlation_mode observer == "mcp_meta"

unfoldable pub correlation_enabled : List Observer → Bool
correlation_enabled = any is_mcp_meta

-- The sets, as lists.
unfoldable pub correlated_observer_names : List Observer → List String
correlated_observer_names observers = map (λ o. o.name) (fetch_all is_mcp_meta observers)

abbrev pub correlation_redaction_values : String → List String
correlation_redaction_values operation_id =
    correlation_meta_key ∷ "guard_operation_id" ∷ operation_id ∷ []

abbrev pub has_key : Json → Bool
has_key (object fs) = elim (get? correlation_meta_key fs) [ none ↦ false | some _ ↦ true ]
has_key _ = false

abbrev pub is_empty_object : Json → Bool
is_empty_object (object end) = true
is_empty_object _ = false

unfoldable mutual
  pub strip_internal_correlation : Json → Json
  strip_internal_correlation (object fs) = object (strip_fields fs)
  strip_internal_correlation (array xs) = array (strip_items xs)
  strip_internal_correlation v = v

  pub strip_items : Items → Items
  strip_items nil = nil
  strip_items (cons x xs) = cons (strip_internal_correlation x) (strip_items xs)

  pub strip_fields : Fields → Fields
  strip_fields end = end
  strip_fields (field key item rest) =
      let cleaned_item = strip_internal_correlation item in
      let cleaned = strip_fields rest in
      if key == correlation_meta_key
      then cleaned
      else if key == "_meta" && (has_key item && is_empty_object cleaned_item)
      then cleaned
      else field key cleaned_item cleaned

pub record SideEffectEvent : Type 0 where
  pub observer : String
  pub kind : SideEffectKind
  pub details : Fields

pub record ObservationScope : Type 0 where
  pub run_id : String
  pub check_id : String
  pub window_id : String
  pub operation_ids : List String

-- The dictionary keeps the last observer of a name.
unfoldable pub mode_of : String → List Observer → Option String
mode_of name [] = none
mode_of name (observer ∷ observers) =
    let later = mode_of name observers in
    elim later [
      | some mode ↦ some mode
      | none ↦ if observer.name == name then some (observer_correlation_mode observer) else none
    ]

abbrev pub is_correlated : Option String → Bool
is_correlated none = false
is_correlated (some mode) = mode == "mcp_meta"

unfoldable pub nonempty_text : Option Json → Option String
nonempty_text (some (text s)) = if s == "" then none else some s
nonempty_text _ = none

-- type(version) is int and version == CORRELATION_VERSION
abbrev pub is_version : Option Json → Bool
is_version (some (integer (pos n))) = eqb n 1
is_version _ = false

abbrev pub pair : Option String → Option String → Option (String × String)
pair (some run_id) (some operation_id) = some (run_id, operation_id)
pair _ _ = none

unfoldable pub read_envelope : Option Json → Option (String × String)
unfolding nonempty_text
read_envelope (some (object envelope)) =
    if is_version (get? "version" envelope)
    then pair (nonempty_text (get? "run_id" envelope))
        (nonempty_text (get? "guard_operation_id" envelope))
    else none
read_envelope _ = none

unfoldable pub read_meta : Option Json → Option (String × String)
unfolding read_envelope
read_meta (some (object meta)) = read_envelope (get? correlation_meta_key meta)
read_meta _ = none

unfoldable pub correlation_envelope : Fields → Option (String × String)
unfolding read_meta
correlation_envelope details = read_meta (get? "_meta" details)

-- d.pop(key, None)
unfoldable pub pop : String → Fields → Fields
pop key end = end
pop key (field k v rest) = if k == key then rest else field k v (pop key rest)

-- d[key] = value, where the key is there.
unfoldable pub put_at : String → Json → Fields → Fields
put_at key value end = end
put_at key value (field k v rest) =
    if k == key then field k value rest else field k v (put_at key value rest)

unfoldable pub clean_details : Fields → Option Json → Fields
unfolding pop put_at
clean_details details (some (object meta)) = elim (pop correlation_meta_key meta) [
  | end ↦ pop "_meta" details
  | field k v rest ↦ put_at "_meta" (object (field k v rest)) details
]
clean_details details _ = details

unfoldable pub without_guard_correlation : SideEffectEvent → SideEffectEvent
unfolding clean_details
without_guard_correlation event = record event {
  details = clean_details event.details (get? "_meta" event.details);
}

abbrev pub Attribution : Type 0
Attribution = List SideEffectEvent × List String

-- errors[observer] = message: the message is the same for all.
abbrev pub add_error : String → List String → List String
add_error name errors = if contains errors name then errors else errors ++ name ∷ []

-- An event of a correlating observer, by its envelope.
unfoldable pub attribute_own :
    ObservationScope
    → SideEffectEvent
    → List SideEffectEvent
    → List String
    → Option (String × String)
    → Attribution
unfolding without_guard_correlation
attribute_own scope event attributed errors none = (attributed, add_error event.observer errors)
attribute_own scope event attributed errors (some (run_id, operation_id)) =
    if run_id == scope.run_id && contains scope.operation_ids operation_id
    then (attributed ++ without_guard_correlation event ∷ [], errors)
    else (attributed, errors)

unfoldable pub attribute_event :
    List Observer → ObservationScope → SideEffectEvent → Attribution → Attribution
unfolding attribute_own correlation_envelope
attribute_event observers scope event (attributed, errors) =
    if is_correlated (mode_of event.observer observers)
    then attribute_own scope event attributed errors (correlation_envelope event.details)
    else (attributed ++ event ∷ [], errors)

unfoldable pub attribute_from :
    List Observer → ObservationScope → List SideEffectEvent → Attribution → Attribution
unfolding attribute_event
attribute_from observers scope [] out = out
attribute_from observers scope (event ∷ events) out =
    attribute_from observers scope events (attribute_event observers scope event out)

unfoldable pub attribute_correlated_events :
    List SideEffectEvent → List Observer → ObservationScope → Attribution
unfolding attribute_from
attribute_correlated_events events observers scope = attribute_from observers scope events ([], [])
