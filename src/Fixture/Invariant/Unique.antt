-- ===== src/Fixture/Invariant/Unique.antt =====
-- The attempts of the fixture's database have different identifiers, whatever a method does.
use mcp_behaviour_guard.Prelude.{
  String, ◌≡◌, refl, ap, none, some, List, [], ◌∷◌, ◌++◌, ◌==◌, eq_refl, if◌then◌else◌, Bool-cases,
  inl, inr, Bool,
}
use mcp_behaviour_guard.Prelude.Table.{fetch_one, update, fetch_one-update}
use mathlib.Core.Path.{subst}
use mathlib.Core.Option.{some-injective}
use mcp_behaviour_guard.Prelude.{==-cases, ==_comm_false}
use mcp_behaviour_guard.Prelude.Table.{fetch_one-append_row}
use mcp_behaviour_guard.Fixture.Schema.{Attempt}
use mcp_behaviour_guard.Fixture.Query.{has_id}
use mcp_behaviour_guard.Fixture.Invariant.{HasUniqueIds}

id-change :
    (b : String) (change : Attempt → Attempt) (row : Attempt)
    → ((r : Attempt) → (change r).attempt_id ≡ r.attempt_id)
    → (if has_id b row then change row else row).attempt_id ≡ row.attempt_id
id-change b change row keeps = elim (Bool-cases (has_id b row)) [
  | inl e ↦ rw e (keeps row)
  | inr e ↦ rw e
]

pub HasUniqueIds-update :
    (b : String) (change : Attempt → Attempt) (rows : List Attempt)
    → ((r : Attempt) → (change r).attempt_id ≡ r.attempt_id)
    → HasUniqueIds rows
    → HasUniqueIds (update (has_id b) change rows)
unfolding update
HasUniqueIds-update b change [] keeps h = tt
HasUniqueIds-update b change (row ∷ rows) keeps h =
    let test = has_id row.attempt_id in
    (
      rw (id-change b change row keeps) (
          rw
            (fetch_one-update test (has_id b) change rows
              (λ r. ap (λ k. k == row.attempt_id) (keeps r)))
            (rw h.0)),
      HasUniqueIds-update b change rows keeps h.1,
    )

pub HasUniqueIds-append_row :
    (rows : List Attempt) (new : Attempt)
    → fetch_one (has_id new.attempt_id) rows ≡ none
    → HasUniqueIds rows
    → HasUniqueIds (rows ++ new ∷ [])
unfolding fetch_one
HasUniqueIds-append_row [] new absent h = (refl, tt)
HasUniqueIds-append_row (row ∷ rows) new absent h =
    elim (Bool-cases (row.attempt_id == new.attempt_id)) [
      | inl e ↦ let found = rw e at absent in cc
      | inr e ↦ (
        rw (fetch_one-append_row (has_id row.attempt_id) rows new)
            (rw (h.0, ==_comm_false row.attempt_id new.attempt_id e)),
        HasUniqueIds-append_row rows new (rw e at absent) h.1,
      )
    ]

-- A row found by any test is the row of its identifier.
pub fetch_one_by_id :
    (test : Attempt → Bool) (rows : List Attempt) {row : Attempt}
    → HasUniqueIds rows
    → fetch_one test rows ≡ some row
    → fetch_one (has_id row.attempt_id) rows ≡ some row
unfolding fetch_one
fetch_one_by_id test [] h found = cc
fetch_one_by_id test (first ∷ rows) {row} h found = elim (Bool-cases (test first)) [
  | inl e ↦
      let p : some first ≡ some row = rw e at found in
      subst
        (λ r.
          (if has_id r.attempt_id first then some first else fetch_one (has_id r.attempt_id) rows)
          ≡ some r)
        (some-injective first row p) (rw (eq_refl first.attempt_id))
  | inr e ↦
      let p : fetch_one test rows ≡ some row = rw e at found in
      let ih = fetch_one_by_id test rows h.1 p in
      elim (==-cases first.attempt_id row.attempt_id) [
        | inl same ↦ cc (rw same at (h.0))
        | inr apart ↦ rw apart ih
      ]
]
