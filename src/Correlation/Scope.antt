-- ===== src/Correlation/Scope.antt =====
-- Which events `attribute_correlated_events` of src/mcp_behaviour_guard/correlation.py gives to a
-- scope.
use mcp_behaviour_guard.Prelude.{
  ◌≡◌, refl, true, false, ◌&&◌, ◌==◌, some, List, [], ◌∷◌, ◌++◌, ◌⊎◌, inl, inr, contains, String,
  Option-cases, Bool-cases, eq_refl,
}
use mcp_behaviour_guard.Correlation.{
  Observer, ObservationScope, SideEffectEvent, attribute_correlated_events, correlation_envelope,
  is_correlated, attribute_own, attribute_event, attribute_from, build_correlation_meta, mode_of,
  Attribution, without_guard_correlation, pop,
}
use mcp_behaviour_guard.Json.{get?, object}
use mcp_behaviour_guard.Correlation.Strip.{both_true}

pub data In {A : Type 0} (a : A) : List A → Type 0 where
  head : {xs : List A} → In a (a ∷ xs)
  tail : {x : A} {xs : List A} → In a xs → In a (x ∷ xs)

In-snoc : {A : Type 0} {a b : A} (xs : List A) → In a (xs ++ b ∷ []) → In a xs ⊎ (a ≡ b)
In-snoc [] head = inr refl
In-snoc [] (tail here) = inl here
In-snoc (x ∷ xs) head = inl head
In-snoc (x ∷ xs) (tail here) = elim (In-snoc xs here) [ inl h ↦ inl (tail h) | inr e ↦ inr e ]

module _ (observers : List Observer) (scope : ObservationScope) where
  -- The event names the scope's run and one of its operations.
  pub record IsOwn (event : SideEffectEvent) : Type 0 where
    pub run_id : String
    pub operation_id : String
    pub envelope : correlation_envelope event.details ≡ some (run_id, operation_id)
    pub same_run : (run_id == scope.run_id) ≡ true
    pub known : contains scope.operation_ids operation_id ≡ true

  -- What an event of the result comes from.
  abbrev pub Origin : SideEffectEvent → SideEffectEvent → Type 0
  Origin event kept =
      ((is_correlated (mode_of event.observer observers) ≡ false) × (kept ≡ event))
      ⊎ (IsOwn event × (kept ≡ without_guard_correlation event))

  own_Origin :
      (event : SideEffectEvent) (attributed : List SideEffectEvent) (errors : List String)
      (kept : SideEffectEvent)
      → In kept (attribute_own scope event attributed errors (correlation_envelope event.details)).0
      → In kept attributed ⊎ Origin event kept
  unfolding attribute_own
  own_Origin event attributed errors kept here =
      elim (Option-cases (correlation_envelope event.details)) [
        | inl e ↦ inl (rw e at here)
        | inr ((run_id, operation_id), e) ↦
            elim (Bool-cases
              (run_id == scope.run_id && contains scope.operation_ids operation_id)) [
                | inr foreign ↦ inl (rw foreign at (rw e at here))
                | inl own ↦ elim (In-snoc attributed (rw own at (rw e at here))) [
                  | inl before ↦ inl before
                  | inr same ↦
                      let (run, known) = both_true (run_id == scope.run_id) _ own in
                      inr (
                        inr (
                          record {
                            run_id = run_id;
                            operation_id = operation_id;
                            envelope = e;
                            same_run = run;
                            known = known;
                          },
                          same,
                        ))
                ]
              ]
      ]

  attribute_event-Origin :
      (event : SideEffectEvent) (out : Attribution) (kept : SideEffectEvent)
      → In kept (attribute_event observers scope event out).0
      → In kept out.0 ⊎ Origin event kept
  unfolding attribute_event
  attribute_event-Origin event (attributed, errors) kept here =
      elim (Bool-cases (is_correlated (mode_of event.observer observers))) [
        | inr plain ↦ elim (In-snoc attributed (rw plain at here)) [
          | inl before ↦ inl before
          | inr e ↦ inr (inl (plain, e))
        ]
        | inl correlated ↦ own_Origin event attributed errors kept (rw correlated at here)
      ]

  from_Origin :
      (events : List SideEffectEvent) (out : Attribution) (kept : SideEffectEvent)
      → In kept (attribute_from observers scope events out).0
      → In kept out.0 ⊎ ((event : SideEffectEvent) × In event events × Origin event kept)
  unfolding attribute_from
  from_Origin [] out kept here = inl here
  from_Origin (event ∷ events) out kept here =
      elim (from_Origin events (attribute_event observers scope event out) kept here) [
        | inr (e, there, origin) ↦ inr (e, tail there, origin)
        | inl before ↦ elim (attribute_event-Origin event out kept before) [
          | inl old ↦ inl old
          | inr origin ↦ inr (event, head, origin)
        ]
      ]

nowhere : {A P : Type 0} {a : A} → In a [] → P
nowhere here = elim here [ ]

-- Every event of the result of `attribute_correlated_events` is one of the observed events: as it
-- was, where its observer does not correlate, or without the guard's metadata, where that named
-- the scope's run and one of the scope's operations.
pub attribute_correlated_events-Origin :
    (events : List SideEffectEvent) (observers : List Observer) (scope : ObservationScope)
    (kept : SideEffectEvent)
    → In kept (attribute_correlated_events events observers scope).0
    → (event : SideEffectEvent) × In event events × Origin observers scope event kept
unfolding attribute_correlated_events
attribute_correlated_events-Origin events observers scope kept here =
    elim (from_Origin observers scope events ([], []) kept here) [
      | inl old ↦ nowhere old
      | inr found ↦ found
    ]

-- An event of a correlating observer, whose `_meta` is what `build_correlation_meta` made for the
-- scope's run and one of its operations, neither of them empty, is given to the scope, and its
-- `_meta` entry is gone.
pub attribute_built_event :
    (event : SideEffectEvent) (observers : List Observer) (scope : ObservationScope)
    (operation_id : String)
    → is_correlated (mode_of event.observer observers) ≡ true
    → get? "_meta" event.details ≡ some (object (build_correlation_meta scope.run_id operation_id))
    → (scope.run_id == "") ≡ false
    → (operation_id == "") ≡ false
    → contains scope.operation_ids operation_id ≡ true
    → attribute_correlated_events (event ∷ []) observers scope
      ≡ (record event { details = pop "_meta" event.details } ∷ [], [])
unfolding attribute_correlated_events build_correlation_meta attribute_own correlation_envelope
    without_guard_correlation
attribute_built_event event observers scope operation_id correlated meta run operation known =
    rw (correlated, meta, run, operation, known, eq_refl scope.run_id)
      (rw (without_guard_correlation, meta) refl)
