-- ===== src/Temporal.antt =====
-- src/mcp_behaviour_guard/temporal.py: whether the metadata of a target drifted between two
-- snapshots. A family that is no dictionary is compared as a whole.
pub mod Drift
pub mod Tests
use mcp_behaviour_guard.Prelude.{
  String, Bool, true, false, not, ◌||◌, Option, none, some, List, [], ◌∷◌, any, is_empty,
  if◌then◌else◌, map,
}
use mcp_behaviour_guard.Json.{Json, object, Fields, end, field, get?}
use mcp_behaviour_guard.SavedRun.Inventory.{
  Change, sorted_names, difference, intersection, change_if, differ,
}

-- _METADATA_FAMILIES
abbrev pub metadata_families : List String
metadata_families = "tools" ∷ "prompts" ∷ "prompt_payloads" ∷ "resources" ∷ []

abbrev pub keys : Fields → List String
keys end = []
keys (field k v rest) = k ∷ keys rest

abbrev pub put_first : String → Option Json → Fields → Fields
put_first key none rest = rest
put_first key (some v) rest = field key v rest

-- {key: raw_family[key] for key in names}
unfoldable pub pick : Fields → List String → Fields
pick raw [] = end
pick raw (name ∷ names) = put_first name (get? name raw) (pick raw names)

unfoldable pub normalise_family : Json → Json
unfolding pick sorted_names
normalise_family (object raw) = object (pick raw (sorted_names (keys raw)))
normalise_family v = v

-- snapshot.get(family, {})
abbrev pub or_empty : Option Json → Json
or_empty none = object end
or_empty (some v) = v

unfoldable pub normalise_families : List String → Fields → Fields
unfolding normalise_family
normalise_families [] snapshot = end
normalise_families (family ∷ families) snapshot =
    field family (normalise_family (or_empty (get? family snapshot)))
      (normalise_families families snapshot)

unfoldable pub normalise_metadata_snapshot : Fields → Fields
unfolding normalise_families
normalise_metadata_snapshot = normalise_families metadata_families

-- A family that is compared as a whole keeps its two values if they differ.
pub data FamilyDiff : Type 0 where
  whole : Option (Json × Json) → FamilyDiff
  entries : (added removed : List String) (changed : List Change) → FamilyDiff

module _ (stable_hash : Json → String) where
  unfoldable pub metadata_fingerprint : Fields → String
  unfolding normalise_metadata_snapshot
  metadata_fingerprint snapshot = stable_hash (object (normalise_metadata_snapshot snapshot))

  abbrev pub change_at : String → Option Json → Option Json → List Change → List Change
  change_at name (some before) (some after) changes =
      change_if stable_hash name before after changes
  change_at name _ _ changes = changes

  -- The loop over the common names.
  unfoldable pub entry_changes : Fields → Fields → List String → List Change
  entry_changes before after [] = []
  entry_changes before after (name ∷ names) =
      change_at name (get? name before) (get? name after) (entry_changes before after names)

  abbrev pub compare_whole : Json → Json → FamilyDiff
  compare_whole before after =
      if differ stable_hash before after then whole (some (before, after)) else whole none

  unfoldable pub compare_family : Json → Json → FamilyDiff
  unfolding difference intersection entry_changes
  compare_family (object before) (object after) =
      entries (difference (keys after) (keys before)) (difference (keys before) (keys after))
        (entry_changes before after (intersection (keys before) (keys after)))
  compare_family before after = compare_whole before after

  unfoldable pub compare_families : List String → Fields → Fields → List (String × FamilyDiff)
  unfolding compare_family
  compare_families [] reference current = []
  compare_families (family ∷ families) reference current =
      (family, compare_family (or_empty (get? family reference)) (or_empty (get? family current)))
      ∷ compare_families families reference current

-- _family_has_drift
unfoldable pub family_has_drift : FamilyDiff → Bool
family_has_drift (whole none) = false
family_has_drift (whole (some both)) = true
family_has_drift (entries added removed changed) =
    not (is_empty added) || (not (is_empty removed) || not (is_empty changed))

pub record MetadataDiff : Type 0 where
  pub drift_detected : Bool
  pub reference_fingerprint : String
  pub current_fingerprint : String
  pub families : List (String × FamilyDiff)

unfoldable pub compare_metadata_snapshots : (Json → String) → Fields → Fields → MetadataDiff
unfolding normalise_metadata_snapshot compare_families family_has_drift metadata_fingerprint
compare_metadata_snapshots stable_hash reference current =
    let before = normalise_metadata_snapshot reference in
    let after = normalise_metadata_snapshot current in
    let families = compare_families stable_hash metadata_families before after in
    record {
      drift_detected = any (λ f. family_has_drift f.1) families;
      reference_fingerprint = metadata_fingerprint stable_hash before;
      current_fingerprint = metadata_fingerprint stable_hash after;
      families = families;
    }

pub data FamilySummary : Type 0 where
  whole_changed : FamilySummary
  entry_names : (added removed changed : List String) → FamilySummary

unfoldable pub summary_of : FamilyDiff → FamilySummary
unfolding sorted_names
summary_of (whole both) = whole_changed
summary_of (entries added removed changed) =
    entry_names added removed (sorted_names (map (λ c. c.name) changed))

unfoldable pub compact_families : List (String × FamilyDiff) → List (String × FamilySummary)
unfolding summary_of family_has_drift
compact_families [] = []
compact_families ((family, diff) ∷ rest) =
    let others = compact_families rest in
    if family_has_drift diff then (family, summary_of diff) ∷ others else others

unfoldable pub compact_drift_summary : MetadataDiff → List (String × FamilySummary)
unfolding compact_families
compact_drift_summary diff = compact_families diff.families
