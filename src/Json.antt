-- ===== src/Json.antt =====
-- Values as Python's `json` module reads and writes them, and a dictionary's `get`. A dictionary
-- keeps its entries in order and has each key once. A float is its binary64 bit pattern.
use mcp_behaviour_guard.Prelude.{ℕ, String, Bool, Option, none, some, ◌==◌, if◌then◌else◌}
use mcp_behaviour_guard.Prelude.Int.{ℤ}

mutual
  pub data Json : Type 0 where
    null : Json
    boolean : Bool → Json
    integer : ℤ → Json
    float : ℕ → Json
    text : String → Json
    array : Items → Json
    object : Fields → Json

  pub data Items : Type 0 where
    nil : Items
    cons : Json → Items → Items

  pub data Fields : Type 0 where
    end : Fields
    field : String → Json → Fields → Fields

-- d[key], where a missing key is `none`.
abbrev pub get? : String → Fields → Option Json
get? key end = none
get? key (field k value rest) = if k == key then some value else get? key rest

-- A column that may be NULL, as `None`.
abbrev pub nullable : Option String → Json
nullable none = null
nullable (some s) = text s
