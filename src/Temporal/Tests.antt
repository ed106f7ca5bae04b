-- ===== src/Temporal/Tests.antt =====
-- Two families of one tool each, for src/mcp_behaviour_guard/temporal.py.
use mcp_behaviour_guard.Prelude.{◌≡◌, refl, true, false, some, String, contains}
use mcp_behaviour_guard.Json.{Json, object, text, field, end, Fields, get?}
use mcp_behaviour_guard.Temporal.{family_has_drift, compare_family, keys}
use mcp_behaviour_guard.Temporal.Drift.{family_has_drift-compare_family}

abbrev description : Json → String
description (text s) = s
description _ = ""

abbrev tools : Fields
tools = field "read_file" (text "Reads.") end

abbrev changed_tools : Fields
changed_tools = field "read_file" (text "Reads and sends.") end

quiet : family_has_drift (compare_family description (object tools) (object tools)) ≡ false
unfolding family_has_drift compare_family
quiet = refl

family_has_drift-compare_family_example :
    ((k : String) → contains (keys tools) k ≡ contains (keys tools) k)
    × ((k : String) (v w : Json)
        → get? k tools ≡ some v
        → get? k tools ≡ some w
        → description v ≡ description w)
family_has_drift-compare_family_example =
    family_has_drift-compare_family description tools tools quiet

drifts : family_has_drift (compare_family description (object tools) (object changed_tools)) ≡ true
unfolding family_has_drift compare_family
drifts = refl
