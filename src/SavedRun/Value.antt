-- ===== src/SavedRun/Value.antt =====
-- Python's `==` on values that `json.loads` returns, and the tests on such values that
-- src/mcp_behaviour_guard/baseline.py makes. A Boolean equals the integer that it stands for, an
-- integer the float of its value; dictionaries are compared without regard to order.
use Prim.Native.Nat.{◌*◌, ◌/◌, ◌%◌, ◌^◌, max}
use Prim.Native.Char.{code}
use mcp_behaviour_guard.Prelude.Int.{ℤ, pos, negsuc, int_eq}
use mcp_behaviour_guard.Prelude.{
  ℕ, ◌+◌, ◌-◌, suc, String, Bool, true, false, ◌&&◌, ◌||◌, not, Option, none, some, ◌==◌, eqb, leb,
  if◌then◌else◌,
}
use mcp_behaviour_guard.Json.{
  Json, null, boolean, integer, float, text, array, object, Items, nil, cons, Fields, end, field,
  get?,
}

abbrev magnitude : ℤ → ℕ
magnitude (pos n) = n
magnitude (negsuc n) = suc n

abbrev is_negative : ℤ → Bool
is_negative (pos n) = false
is_negative (negsuc n) = true

-- The parts of a binary64: sign, biased exponent, and the significand with its hidden bit.
abbrev sign_bit : ℕ → ℕ
sign_bit bits = bits / 2 ^ 63 % 2

abbrev exponent : ℕ → ℕ
exponent bits = bits / 2 ^ 52 % 2048

abbrev significand : ℕ → ℕ
significand bits = if eqb (exponent bits) 0 then bits % 2 ^ 52 else bits % 2 ^ 52 + 2 ^ 52

-- Whether significand * 2 ^ (exponent - 1075) is the number.
abbrev is_magnitude : ℕ → ℕ → ℕ → Bool
is_magnitude m e n = if leb 1075 e then eqb (m * 2 ^ (e - 1075)) n else eqb m (n * 2 ^ (1075 - e))

-- Infinities and NaN have exponent 2047, and equal no integer.
int_float_eq : ℤ → ℕ → Bool
int_float_eq n bits =
    not (eqb (exponent bits) 2047)
    && (is_magnitude (significand bits) (max (exponent bits) 1) (magnitude n)
        && (eqb (magnitude n) 0 || eqb (sign_bit bits) (if is_negative n then 1 else 0)))

-- NaN equals nothing, the two zeros are equal.
float_eq : ℕ → ℕ → Bool
float_eq x y =
    not (eqb (exponent x) 2047 && not (eqb (x % 2 ^ 52) 0))
    && (eqb x y || (eqb (x % 2 ^ 63) 0 && eqb (y % 2 ^ 63) 0))

abbrev pub int_of : Bool → ℤ
int_of false = pos 0
int_of true = pos 1

number_eq : ℤ → Json → Bool
number_eq n (boolean b) = int_eq n (int_of b)
number_eq n (integer m) = int_eq n m
number_eq n (float bits) = int_float_eq n bits
number_eq n _ = false

float_matches : ℕ → Json → Bool
float_matches x (boolean b) = int_float_eq (int_of b) x
float_matches x (integer m) = int_float_eq m x
float_matches x (float y) = float_eq x y
float_matches x _ = false

text_matches : String → Json → Bool
text_matches s (text t) = s == t
text_matches s _ = false

abbrev pub is_null : Json → Bool
is_null null = true
is_null _ = false

size : Fields → ℕ
size end = 0
size (field k v rest) = suc (size rest)

both : Option Json → (Json → Bool) → Bool
both none test = false
both (some v) test = test v

unfoldable mutual
  unfolding number_eq float_matches text_matches size both int_float_eq float_eq

  -- a == b
  pub json_eq : Json → Json → Bool
  json_eq null v = is_null v
  json_eq (boolean b) v = number_eq (int_of b) v
  json_eq (integer n) v = number_eq n v
  json_eq (float x) v = float_matches x v
  json_eq (text s) v = text_matches s v
  json_eq (array xs) (array ys) = items_eq xs ys
  json_eq (array xs) v = false
  json_eq (object fs) (object gs) = eqb (size fs) (size gs) && fields_eq fs gs
  json_eq (object fs) v = false

  pub items_eq : Items → Items → Bool
  items_eq nil nil = true
  items_eq nil (cons y ys) = false
  items_eq (cons x xs) nil = false
  items_eq (cons x xs) (cons y ys) = json_eq x y && items_eq xs ys

  -- Every entry of the first is in the second.
  pub fields_eq : Fields → Fields → Bool
  fields_eq end gs = true
  fields_eq (field k v rest) gs = both (get? k gs) (json_eq v) && fields_eq rest gs

-- d.get(key): `None` for a missing key.
abbrev pub or_null : Option Json → Json
or_null none = null
or_null (some v) = v

abbrev pub get : String → Fields → Json
get key d = or_null (get? key d)

-- isinstance(v, str), and the text.
abbrev pub as_text : Json → Option String
as_text (text s) = some s
as_text _ = none

abbrev pub as_object : Json → Option Fields
as_object (object fs) = some fs
as_object _ = none

abbrev pub as_array : Json → Option Items
as_array (array xs) = some xs
as_array _ = none

-- isinstance(v, str) and v
abbrev pub is_nonempty_text : Json → Bool
is_nonempty_text (text s) = not (s == "")
is_nonempty_text _ = false

-- The code points c with chr(c).isspace().
is_space : ℕ → Bool
is_space c =
    leb 9 c && leb c 13
    || (leb 28 c && leb c 32
        || (eqb c 133
            || (eqb c 160
                || (eqb c 5760
                    || (leb 8192 c && leb c 8202
                        || (eqb c 8232
                            || (eqb c 8233 || (eqb c 8239 || (eqb c 8287 || eqb c 12288)))))))))

-- bool(s.strip())
unfoldable pub has_visible : String → Bool
unfolding is_space
has_visible String.[] = false
has_visible (String.◌∷◌ c s) = not (is_space (code c)) || has_visible s

-- isinstance(v, str) and bool(v.strip())
abbrev pub is_visible_text : Json → Bool
is_visible_text (text s) = has_visible s
is_visible_text _ = false
