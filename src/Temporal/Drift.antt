-- ===== src/Temporal/Drift.antt =====
-- What it means that `compare_metadata_snapshots` of src/mcp_behaviour_guard/temporal.py finds no
-- drift in a family.
use mcp_behaviour_guard.Prelude.{
  String, true, false, ◌≡◌, is_empty, List, [], ◌∷◌, arith, some, none, Option, contains, inl, inr,
  ==-cases, eq_iff, eq_refl, refl,
}
use mcp_behaviour_guard.Json.{Json, Fields, object, get?, field, end}
use mcp_behaviour_guard.SavedRun.Inventory.{Change, difference, intersection}
use mcp_behaviour_guard.SavedRun.Compare.Members.{
  contains-difference, is_empty-contains, contains-intersection,
}
use mcp_behaviour_guard.Temporal.{compare_family, family_has_drift, entry_changes, keys, change_at}

contains-keys :
    (fs : Fields) (k : String) {v : Json} → get? k fs ≡ some v → contains (keys fs) k ≡ true
contains-keys end k h = cc
contains-keys (field key v rest) k h = elim (==-cases key k) [
  | inl same ↦ rw (same, eq_refl k) refl
  | inr apart ↦ rw (contains-keys rest k (rw apart at h)) (ground arith)
]

module _ (stable_hash : Json → String) where
  others_empty :
      (name : String) (before after : Option Json) (changes : List Change)
      → is_empty (change_at stable_hash name before after changes) ≡ true
      → is_empty changes ≡ true
  others_empty name (some before) (some after) changes h = ground arith
  others_empty name (some before) none changes h = h
  others_empty name none after changes h = h

  entry_changes_none :
      (before after : Fields) (names : List String) (k : String) {v w : Json}
      → is_empty (entry_changes stable_hash before after names) ≡ true
      → contains names k ≡ true
      → get? k before ≡ some v
      → get? k after ≡ some w
      → stable_hash v ≡ stable_hash w
  unfolding entry_changes
  entry_changes_none before after [] k h member b a = cc
  entry_changes_none before after (name ∷ names) k {v} {w} h member b a = elim (==-cases k name) [
    | inl same ↦
        let h' = rw (← same, b, a) at h in ground (arith, eq_iff (stable_hash v) (stable_hash w))
    | inr apart ↦
        entry_changes_none before after names k
          (others_empty name (get? name before) (get? name after)
            (entry_changes stable_hash before after names) h)
          (rw apart at member) b a
  ]

-- No drift in a family of two dictionaries means that they have the same names, and that the two
-- entries of a name have equal hashes.
pub family_has_drift-compare_family :
    (stable_hash : Json → String) (before after : Fields)
    → family_has_drift (compare_family stable_hash (object before) (object after)) ≡ false
    → ((k : String) → contains (keys before) k ≡ contains (keys after) k)
      × ((k : String) (v w : Json)
          → get? k before ≡ some v
          → get? k after ≡ some w
          → stable_hash v ≡ stable_hash w)
unfolding compare_family family_has_drift
family_has_drift-compare_family stable_hash before after h =
    let b = keys before in
    let a = keys after in
    let changes = entry_changes stable_hash before after (intersection b a) in
    let added : is_empty (difference a b) ≡ true = ground arith in
    let removed : is_empty (difference b a) ≡ true = ground arith in
    let same : is_empty changes ≡ true = ground arith in
    (
      λ k. ground (
        arith,
        contains-difference a b k,
        contains-difference b a k,
        is_empty-contains (difference a b) k added,
        is_empty-contains (difference b a) k removed,
      ),
      λ k v w here there.
          let both : contains (intersection b a) k ≡ true = rw (
            contains-intersection b a k,
            contains-keys before k here,
            contains-keys after k there,
          ) in
          entry_changes_none stable_hash before after (intersection b a) k same both here there,
    )
