-- ===== src/Correlation/Tests.antt =====
-- One observed event with the guard's metadata, for src/mcp_behaviour_guard/correlation.py.
use mcp_behaviour_guard.Prelude.{◌≡◌, refl, true, [], ◌∷◌}
use mcp_behaviour_guard.Correlation.{
  Observer, ObservationScope, SideEffectEvent, attribute_correlated_events, mode_of, pop,
  strip_internal_correlation, observer_correlation_mode, build_correlation_meta, is_correlated,
}
use mcp_behaviour_guard.Json.{Fields, null, field, text, object, end}
use mcp_behaviour_guard.Correlation.Scope.{
  In, attribute_built_event, Origin, head, attribute_correlated_events-Origin,
}
use mcp_behaviour_guard.Correlation.Strip.{is_clean, strip_internal_correlation_lem}
use mcp_behaviour_guard.Models.{filesystem_write}

abbrev own_details : Fields
own_details =
    field "path" (text "/tmp/x")
      (field "_meta" (object (build_correlation_meta "run-1" "op-1")) end)

abbrev own_event : SideEffectEvent
own_event = record { observer = "audit"; kind = filesystem_write; details = own_details }

abbrev audit : Observer
audit = record { name = "audit"; correlation = null; configured = text "mcp_meta" }

abbrev scope : ObservationScope
scope = record {
  run_id = "run-1";
  check_id = "c";
  window_id = "w";
  operation_ids = "op-0" ∷ "op-1" ∷ [];
}

abbrev kept_event : SideEffectEvent
kept_event = record own_event { details = field "path" (text "/tmp/x") end }

correlated : is_correlated (mode_of "audit" (audit ∷ [])) ≡ true
unfolding mode_of observer_correlation_mode
correlated = refl

attribute_built_event_example :
    attribute_correlated_events (own_event ∷ []) (audit ∷ []) scope
    ≡ (record own_event { details = pop "_meta" own_details } ∷ [], [])
attribute_built_event_example =
    attribute_built_event own_event (audit ∷ []) scope "op-1" correlated refl refl refl refl

kept_here : In kept_event (attribute_correlated_events (own_event ∷ []) (audit ∷ []) scope).0
unfolding attribute_correlated_events mode_of observer_correlation_mode build_correlation_meta
kept_here = head

attribute_correlated_events-Origin_example :
    (event : SideEffectEvent) × In event (own_event ∷ [])
    × Origin (audit ∷ []) scope event kept_event
attribute_correlated_events-Origin_example =
    attribute_correlated_events-Origin (own_event ∷ []) (audit ∷ []) scope kept_event kept_here

strip_internal_correlation_lem_example :
    (is_clean (strip_internal_correlation (object own_details)) ≡ true)
    × (is_clean (object own_details) ≡ true
        → strip_internal_correlation (object own_details) ≡ object own_details)
    × (strip_internal_correlation (strip_internal_correlation (object own_details))
        ≡ strip_internal_correlation (object own_details))
strip_internal_correlation_lem_example = strip_internal_correlation_lem (object own_details)

-- `_meta` goes with the only entry that it had.
strips : strip_internal_correlation (object own_details) ≡ object (field "path" (text "/tmp/x") end)
unfolding strip_internal_correlation build_correlation_meta
strips = refl
