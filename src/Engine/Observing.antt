-- ===== src/Engine/Observing.antt =====
-- The observers of a call in src/mcp_behaviour_guard/engine.py, `_observer_coverage` and what
-- `_collect_observers` makes of what the observers handed over. The dictionaries of errors have the
-- observers' names as keys.
use mcp_behaviour_guard.Prelude.{
  String, Bool, true, false, not, ◌&&◌, ◌||◌, Option, none, some, List, [], ◌∷◌, ◌++◌, any, all,
  contains, is_empty, ◌==◌, if◌then◌else◌, map,
}
use mcp_behaviour_guard.Prelude.Table.{fetch_all}
use mcp_behaviour_guard.SavedRun.Finding.{Observation, complete, partial, unavailable}
use mcp_behaviour_guard.Models.{SideEffectKind, has_kind, names_of, lookup}
use mcp_behaviour_guard.Correlation.{
  Observer, SideEffectEvent, ObservationScope, correlation_enabled, correlated_observer_names,
  attribute_correlated_events,
}
use Prim.Native.String.{◌++◌ as ◌⧺◌}

-- What `getattr` gives of an observer; `complete_observes` may be missing.
pub record ObserverHandle : Type 0 where
  pub observer : Observer
  pub observes : List SideEffectKind
  pub complete_observes : Option (List SideEffectKind)

abbrev pub Errors : Type 0
Errors = List (String × String)

abbrev pub name_of : ObserverHandle → String
name_of handle = handle.observer.name

-- observer.name not in errors
abbrev pub is_healthy : Errors → ObserverHandle → Bool
is_healthy errors handle = not (contains (names_of errors) (name_of handle))

abbrev pub complete_kinds : ObserverHandle → List SideEffectKind
complete_kinds handle = elim handle.complete_observes [
  | none ↦ handle.observes
  | some declared ↦ declared
]

-- required.issubset(kinds)
abbrev pub is_subset : List SideEffectKind → List SideEffectKind → Bool
is_subset required kinds = all (has_kind kinds) required

-- required & kinds
abbrev pub meets : List SideEffectKind → List SideEffectKind → Bool
meets required kinds = any (has_kind kinds) required

-- set(observes) - complete_kinds(observer)
abbrev pub is_partial_only : ObserverHandle → Bool
is_partial_only handle = not (is_subset handle.observes (complete_kinds handle))

abbrev pub all_complete_kinds : List ObserverHandle → List SideEffectKind
all_complete_kinds [] = []
all_complete_kinds (handle ∷ rest) = complete_kinds handle ++ all_complete_kinds rest

abbrev pub all_observed_kinds : List ObserverHandle → List SideEffectKind
all_observed_kinds [] = []
all_observed_kinds (handle ∷ rest) = handle.observes ++ all_observed_kinds rest

unfoldable pub coverage_of :
    List ObserverHandle → Errors → Option (List SideEffectKind) → Observation
coverage_of [] errors required = unavailable
coverage_of (handle ∷ rest) errors none =
    if not (is_empty errors) || any is_partial_only (handle ∷ rest) then partial else complete
coverage_of (handle ∷ rest) errors (some required) =
    if is_subset required (all_complete_kinds (handle ∷ rest)) then complete else partial

unfoldable pub observer_coverage :
    List ObserverHandle → Errors → Option (List SideEffectKind) → Observation
unfolding coverage_of fetch_all
observer_coverage observers errors required =
    coverage_of (fetch_all (is_healthy errors) observers) errors required

-- What `collect` hands over: its events, those of an `ObserverCollectionError` with the error's
-- text, or the text of any other exception.
pub data Collected : Type 0 where
  events_of : List SideEffectEvent → Collected
  partial_events : List SideEffectEvent → String → Collected
  collect_error : String → Collected

-- errors[name] = message
unfoldable pub set_error : String → String → Errors → Errors
set_error name message [] = (name, message) ∷ []
set_error name message ((k, old) ∷ rest) =
    let others = set_error name message rest in
    if k == name then (k, message) ∷ rest else (k, old) ∷ others

pub record Collection : Type 0 where
  pub events : List SideEffectEvent
  pub errors : Errors
  pub partial_observers : List String

unfoldable pub add_outcome : String → Collected → Collection → Collection
unfolding set_error
add_outcome name (events_of events) so_far = record so_far { events = so_far.events ++ events }
add_outcome name (partial_events events message) so_far = record {
  events = so_far.events ++ events;
  errors = set_error name ("collect: " ⧺ message) so_far.errors;
  partial_observers = so_far.partial_observers ++ name ∷ [];
}
add_outcome name (collect_error message) so_far = record so_far {
  errors = set_error name ("collect: " ⧺ message) so_far.errors;
}

unfoldable pub add_outcomes : List (ObserverHandle × Collected) → Collection → Collection
unfolding add_outcome
add_outcomes [] so_far = so_far
add_outcomes ((handle, outcome) ∷ rest) so_far =
    add_outcomes rest (add_outcome (name_of handle) outcome so_far)

abbrev pub is_unavailable : Observation → Bool
is_unavailable unavailable = true
is_unavailable _ = false

-- required_kinds is None or bool(required_kinds & kinds)
abbrev pub touches : Option (List SideEffectKind) → List SideEffectKind → Bool
touches none kinds = true
touches (some required) kinds = meets required kinds

abbrev pub is_named : List String → ObserverHandle → Bool
is_named names handle = contains names (name_of handle)

unfoldable pub soften :
    Observation → Bool → Option (List SideEffectKind) → List SideEffectKind → Observation
soften coverage partial_seen required kinds =
    if is_unavailable coverage && (partial_seen && touches required kinds)
    then partial
    else coverage

-- f"{existing}; {message}" if existing else message
abbrev pub joined_message : Option String → String → String
joined_message none message = message
joined_message (some existing) message =
    if existing == "" then message else existing ⧺ ("; " ⧺ message)

unfoldable pub add_correlation_errors : String → List String → Errors → Errors
unfolding set_error
add_correlation_errors message [] errors = errors
add_correlation_errors message (name ∷ names) errors =
    add_correlation_errors message names
      (set_error name (joined_message (lookup name errors) message) errors)

-- The events that are left, and the observers with a correlation error, with its text.
unfoldable pub correlate :
    List ObserverHandle
    → List ObserverHandle
    → Option ObservationScope
    → List SideEffectEvent
    → List SideEffectEvent × (List String × String)
unfolding correlated_observer_names fetch_all attribute_correlated_events
correlate observers healthy none events =
    let names = correlated_observer_names (map (λ h. h.observer) healthy) in
    (
      fetch_all (λ e. not (contains names e.observer)) events,
      (names, "correlation: observation scope is required"),
    )
correlate observers healthy (some scope) events =
    let (attributed, names) =
      attribute_correlated_events events (map (λ h. h.observer) observers) scope in
    (attributed, (names, "correlation: required MCP metadata is missing or malformed"))

pub record Observed : Type 0 where
  pub events : List SideEffectEvent
  pub coverage : Observation
  pub errors : Errors

unfoldable pub with_correlation :
    List ObserverHandle
    → List String
    → Option (List SideEffectKind)
    → Observed
    → List SideEffectEvent × (List String × String)
    → Observed
unfolding add_correlation_errors observer_coverage soften fetch_all
with_correlation observers partial_observers required seen (events, ([], message)) = record seen {
  events = events;
}
with_correlation observers partial_observers required seen (events, (name ∷ names, message)) =
    let errors = add_correlation_errors message (name ∷ names) seen.errors in
    let affected = fetch_all (is_named (partial_observers ++ name ∷ names)) observers in
    record {
      events = events;
      coverage =
          soften (observer_coverage observers errors required) true required
            (all_observed_kinds affected);
      errors = errors;
    }

-- `_collect_observers` from the outcomes of the healthy observers on.
unfoldable pub settle_collection :
    List ObserverHandle
    → Option (List SideEffectKind)
    → Option ObservationScope
    → List ObserverHandle
    → Collection
    → Observed
unfolding observer_coverage soften correlation_enabled correlate with_correlation fetch_all
settle_collection observers required scope healthy collection =
    let partial_handles = fetch_all (is_named collection.partial_observers) healthy in
    let coverage =
      soften (observer_coverage observers collection.errors required)
        (not (is_empty collection.partial_observers)) required
        (all_observed_kinds partial_handles) in
    let seen : Observed = record {
      events = collection.events;
      coverage = coverage;
      errors = collection.errors;
    } in
    if correlation_enabled (map (λ h. h.observer) observers)
    then with_correlation observers collection.partial_observers required seen
        (correlate observers healthy scope collection.events)
    else seen
