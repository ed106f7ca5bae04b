-- ===== src/SavedRun/Inventory/Review.antt =====
-- What it means that `_compare_saved_tool_inventory` of src/mcp_behaviour_guard/baseline.py asks
-- for no review.
use mcp_behaviour_guard.Prelude.{
  String, Bool, true, false, ◌≡◌, is_empty, List, [], ◌∷◌, arith, some, none, ==-cases, eq_iff,
  contains, Option, inl, inr,
}
use mcp_behaviour_guard.SavedRun.Inventory.{
  SavedTool, find_tool, changes_at, schema, metadata, compare_saved_tool_inventory, Change,
  tool_names, with_entries, difference, intersection,
}
use mcp_behaviour_guard.Json.{Json, Fields, object}
use mcp_behaviour_guard.SavedRun.Compare.Members.{
  contains-difference, is_empty-contains, contains-intersection,
}
use mcp_behaviour_guard.Prelude.Members.{contains-find}

module _ (stable_hash : Json → String) (view : Fields → Json) where
  rest_empty :
      (name : String) (before after : Option SavedTool) (changes : List Change)
      → is_empty (with_entries stable_hash view name before after changes) ≡ true
      → is_empty changes ≡ true
  rest_empty name (some before) (some after) changes h = ground arith
  rest_empty name (some before) none changes h = h
  rest_empty name none after changes h = h

  -- No change at a name means equal hashes there.
  changes_at_none :
      (reference candidate : List SavedTool) (names : List String) (i : String)
      {before after : SavedTool}
      → is_empty (changes_at stable_hash view reference candidate names) ≡ true
      → contains names i ≡ true
      → find_tool i reference ≡ some before
      → find_tool i candidate ≡ some after
      → stable_hash (view before.entry) ≡ stable_hash (view after.entry)
  unfolding changes_at
  changes_at_none reference candidate [] i h member b a = cc
  changes_at_none reference candidate (name ∷ rest) i {before} {after} h member b a =
      elim (==-cases i name) [
        | inl same ↦
            let h' = rw (← same, b, a) at h in
            ground
              (arith, eq_iff (stable_hash (view before.entry)) (stable_hash (view after.entry)))
        | inr apart ↦
            changes_at_none reference candidate rest i
              (rest_empty name (find_tool name reference) (find_tool name candidate)
                (changes_at stable_hash view reference candidate rest) h)
              (rw apart at member) b a
      ]

-- The two entries of a tool have equal hashes of their schemas and of the rest.
abbrev pub SameTool : (Json → String) → SavedTool → SavedTool → Type 0
SameTool stable_hash before after =
    (stable_hash (schema before.entry) ≡ stable_hash (schema after.entry))
    × (stable_hash (object (metadata before.entry)) ≡ stable_hash (object (metadata after.entry)))

-- Where no review is required, both inventories were declared, they have the same tools, and each
-- tool has the same schema and the same metadata on both sides, up to the hash.
pub review_not_required :
    (stable_hash : Json → String) (reference candidate : List SavedTool) (r c : Bool)
    → (compare_saved_tool_inventory stable_hash reference candidate r c).review_required ≡ false
    → (r ≡ true)
      × (c ≡ true)
      × ((i : String) → contains (tool_names reference) i ≡ contains (tool_names candidate) i)
      × ((i : String) (before after : SavedTool)
          → find_tool i reference ≡ some before
          → find_tool i candidate ≡ some after
          → SameTool stable_hash before after)
unfolding compare_saved_tool_inventory
review_not_required stable_hash reference candidate r c h =
    let names_r = tool_names reference in
    let names_c = tool_names candidate in
    let common = intersection names_r names_c in
    let view : Fields → Json = λ entry. object (metadata entry) in
    let schemas = changes_at stable_hash schema reference candidate common in
    let others = changes_at stable_hash view reference candidate common in
    let added : is_empty (difference names_c names_r) ≡ true = ground arith in
    let removed : is_empty (difference names_r names_c) ≡ true = ground arith in
    let same_schemas : is_empty schemas ≡ true = ground arith in
    let same_others : is_empty others ≡ true = ground arith in
    (
      ground arith,
      ground arith,
      λ i. ground (
        arith,
        contains-difference names_c names_r i,
        contains-difference names_r names_c i,
        is_empty-contains (difference names_c names_r) i added,
        is_empty-contains (difference names_r names_c) i removed,
      ),
      λ i before after b a.
          let both : contains common i ≡ true = rw (
            contains-intersection names_r names_c i,
            contains-find (λ t. t.name) i reference b,
            contains-find (λ t. t.name) i candidate a,
          ) in
          (
            changes_at_none stable_hash schema reference candidate common i same_schemas both b a,
            changes_at_none stable_hash view reference candidate common i same_others both b a,
          ),
    )
