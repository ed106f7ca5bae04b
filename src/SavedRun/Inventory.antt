-- ===== src/SavedRun/Inventory.antt =====
-- The tool inventories of two saved runs, `_index_saved_tools` and `_compare_saved_tool_inventory`
-- of src/mcp_behaviour_guard/baseline.py. `stable_hash`, a SHA-256 of a JSON text, is an argument.
pub mod Review
use mcp_behaviour_guard.Prelude.{
  String, Bool, true, false, not, ◌||◌, Option, none, some, List, [], ◌∷◌, ◌++◌, map, contains,
  ◌==◌, text_leb, if◌then◌else◌, is_empty,
}
use mcp_behaviour_guard.Prelude.Table.{fetch_one, fetch_all, order_by}
use mcp_behaviour_guard.Json.{Json, text, array, object, Items, nil, cons, Fields, end, field, get?}
use mcp_behaviour_guard.SavedRun.Error.{Loaded, ok, err, comparison_error, ◌>>=◌, ◌>>◌, require}
use mcp_behaviour_guard.SavedRun.Value.{get}

pub record SavedTool : Type 0 where
  pub name : String
  pub entry : Fields

abbrev pub tool_names : List SavedTool → List String
tool_names = map (λ t. t.name)

nonempty_name : Json → Loaded String
nonempty_name (text s) =
    if s == "" then err (comparison_error "tool inventory contains an entry without name") else ok s
nonempty_name _ = err (comparison_error "tool inventory contains an entry without name")

read_tool : List SavedTool → Json → Loaded SavedTool
unfolding nonempty_name
read_tool tools (object raw) = do
  name ← nonempty_name (get "name" raw)
  require (not (contains (tool_names tools) name)) "tool inventory contains duplicate tool"
  ok (record { name = name; entry = raw })
read_tool tools _ = err (comparison_error "tool inventory contains a malformed entry")

tools_from : List SavedTool → Items → Loaded (List SavedTool)
unfolding read_tool
tools_from tools nil = ok tools
tools_from tools (cons raw rest) = do
  tool ← read_tool tools raw
  tools_from (tools ++ tool ∷ []) rest

unfoldable pub index_saved_tools : Json → Loaded (List SavedTool)
unfolding tools_from
index_saved_tools (array items) = tools_from [] items
index_saved_tools _ = err (comparison_error "tool inventory must be a JSON list")

abbrev pub find_tool : String → List SavedTool → Option SavedTool
find_tool name tools = fetch_one (λ t. t.name == name) tools

-- sorted(xs) of names that differ.
unfoldable pub sorted_names : List String → List String
unfolding order_by
sorted_names = order_by text_leb

-- sorted(a - b) and sorted(a & b), of the keys of two dictionaries.
unfoldable pub difference : List String → List String → List String
unfolding sorted_names fetch_all
difference a b = sorted_names (fetch_all (λ x. not (contains b x)) a)

unfoldable pub intersection : List String → List String → List String
unfolding sorted_names fetch_all
intersection a b = sorted_names (fetch_all (contains b) a)

-- before.get("inputSchema", before.get("input_schema"))
abbrev pub schema_or : Option Json → Fields → Json
schema_or (some v) entry = v
schema_or none entry = get "input_schema" entry

abbrev pub schema : Fields → Json
schema entry = schema_or (get? "inputSchema" entry) entry

unfoldable pub metadata : Fields → Fields
metadata end = end
metadata (field k v rest) =
    if k == "inputSchema" || k == "input_schema" then metadata rest else field k v (metadata rest)

pub record Change : Type 0 where
  pub name : String
  pub before : Json
  pub after : Json

module _ (stable_hash : Json → String) where
  -- stable_hash(before) != stable_hash(after)
  abbrev pub differ : Json → Json → Bool
  differ before after = not (stable_hash before == stable_hash after)

  abbrev pub change_if : String → Json → Json → List Change → List Change
  change_if name before after changes =
      if differ before after
      then record { name = name; before = before; after = after } ∷ changes
      else changes

  abbrev pub with_entries :
      (Fields → Json) → String → Option SavedTool → Option SavedTool → List Change → List Change
  with_entries view name (some before) (some after) changes =
      change_if name (view before.entry) (view after.entry) changes
  with_entries view name _ _ changes = changes

  -- The changes of one view of the entries, at the common names in order.
  unfoldable pub changes_at :
      (Fields → Json) → List SavedTool → List SavedTool → List String → List Change
  changes_at view reference candidate [] = []
  changes_at view reference candidate (name ∷ rest) =
      with_entries view name (find_tool name reference) (find_tool name candidate)
        (changes_at view reference candidate rest)

pub record Capabilities : Type 0 where
  pub comparable_inventories : Bool
  pub reference_inventory_available : Bool
  pub candidate_inventory_available : Bool
  pub added_tools : List String
  pub removed_tools : List String
  pub changed_tool_schemas : List Change
  pub changed_tool_metadata : List Change
  pub review_required : Bool

unfoldable pub compare_saved_tool_inventory :
    (Json → String) → List SavedTool → List SavedTool → Bool → Bool → Capabilities
unfolding difference intersection changes_at metadata
compare_saved_tool_inventory stable_hash reference candidate reference_available
      candidate_available =
    let added = difference (tool_names candidate) (tool_names reference) in
    let removed = difference (tool_names reference) (tool_names candidate) in
    let common = intersection (tool_names reference) (tool_names candidate) in
    let schemas = changes_at stable_hash schema reference candidate common in
    let others =
      changes_at stable_hash (λ entry. object (metadata entry)) reference candidate common in
    if not reference_available || not candidate_available
    then record {
      comparable_inventories = false;
      reference_inventory_available = reference_available;
      candidate_inventory_available = candidate_available;
      added_tools = [];
      removed_tools = [];
      changed_tool_schemas = [];
      changed_tool_metadata = [];
      review_required = true;
    }
    else record {
      comparable_inventories = true;
      reference_inventory_available = reference_available;
      candidate_inventory_available = candidate_available;
      added_tools = added;
      removed_tools = removed;
      changed_tool_schemas = schemas;
      changed_tool_metadata = others;
      review_required =
          not (is_empty added)
          || (not (is_empty removed) || (not (is_empty schemas) || not (is_empty others)));
    }
