-- ===== src/Util.antt =====
-- `get_path` of src/mcp_behaviour_guard/util.py. A part is a number when its characters are the
-- digits of ASCII; Python also takes other digits, which are not modelled.
use Prim.Native.Nat.{◌*◌}
use Prim.Native.Char.{code}
use mcp_behaviour_guard.Prelude.{
  ℕ, zero, ◌+◌, ◌-◌, suc, String, ◌&&◌, Option, none, some, List, [], ◌∷◌, ◌==◌, eqb, leb,
  if◌then◌else◌,
}
use mcp_behaviour_guard.Json.{Json, null, array, object, Items, nil, cons}
use mcp_behaviour_guard.SavedRun.Value.{get}

-- What the walk gives, or Python's IndexError.
pub data Found : Type 0 where
  found : Json → Found
  index_error : Found

-- removeprefix("$.")
strip_dot : String → String → String
strip_dot whole String.[] = whole
strip_dot whole (String.◌∷◌ c rest) = if eqb (code c) 46 then rest else whole

unfoldable pub remove_prefix : String → String
unfolding strip_dot
remove_prefix String.[] = ""
remove_prefix (String.◌∷◌ c rest) =
    if eqb (code c) 36 then strip_dot (String.◌∷◌ c rest) rest else String.◌∷◌ c rest

onto_first : String → List String → List String
onto_first s [] = s ∷ []
onto_first s (part ∷ parts) = s ∷ parts

first_part : List String → String
first_part [] = ""
first_part (part ∷ parts) = part

-- split(".")
unfoldable pub split_dots : String → List String
unfolding onto_first first_part
split_dots String.[] = "" ∷ []
split_dots (String.◌∷◌ c rest) =
    let parts = split_dots rest in
    if eqb (code c) 46 then "" ∷ parts else onto_first (String.◌∷◌ c (first_part parts)) parts

-- The number that the digits stand for, on top of `n`; `none` at a character that is no digit.
unfoldable pub digits_from : ℕ → String → Option ℕ
digits_from n String.[] = some n
digits_from n (String.◌∷◌ c rest) =
    let later = digits_from (n * 10 + (code c - 48)) rest in
    if leb 48 (code c) && leb (code c) 57 then later else none

-- isdigit and int: the empty text is no number.
unfoldable pub as_index : String → Option ℕ
unfolding digits_from
as_index String.[] = none
as_index (String.◌∷◌ c rest) = digits_from 0 (String.◌∷◌ c rest)

nth : ℕ → Items → Found
nth n nil = index_error
nth zero (cons v rest) = found v
nth (suc n) (cons v rest) = nth n rest

at_index : Option ℕ → Items → Found
unfolding nth
at_index none items = found null
at_index (some n) items = nth n items

-- One step into a value. `ends` says that the walk returns `None` there.
unfoldable pub step_into : String → Json → Found
unfolding at_index as_index
step_into part (object fs) = found (get part fs)
step_into part (array items) = at_index (as_index part) items
step_into part _ = found null

unfoldable pub walk_from : List String → Json → Found
unfolding step_into
walk_from [] current = found current
walk_from (part ∷ parts) current =
    if part == "" then walk_from parts current else elim (step_into part current) [
      | found next ↦ walk_from parts next
      | index_error ↦ index_error
    ]

unfoldable pub get_path : Json → String → Found
unfolding walk_from remove_prefix split_dots
get_path value dotted_path = walk_from (split_dots (remove_prefix dotted_path)) value
