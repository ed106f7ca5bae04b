-- ===== src/Prelude/Members.antt =====
-- Membership in lists of texts that are filtered and sorted, as Python does with sets of keys.
use Prim.Native.String.{String}
use mathlib.Core.Path.{◌≡◌, refl}
use mathlib.Core.Bool.{Bool, true, ◌&&◌, ◌||◌}
use mathlib.Core.List.{List, [], ◌∷◌, map}
use native.Mathlib.Omega.{arith}
use text.Mathlib.Text.{◌==◌}
use text.Mathlib.TextEquality.{eq_iff}
use mathlib.Core.Option.{some}
use mcp_behaviour_guard.Prelude.Tests.{==_comm_false, ==-cases}
use mcp_behaviour_guard.Prelude.Lists.{contains}
use mcp_behaviour_guard.Prelude.Table.{fetch_one, fetch_all, insert_by, order_by}
use mcp_behaviour_guard.Prelude.{inl, inr}

pub contains-insert_by :
    (before : String → String → Bool) (x : String) (ys : List String) (i : String)
    → contains (insert_by before x ys) i ≡ (i == x || contains ys i)
unfolding insert_by
contains-insert_by before x [] i = refl
contains-insert_by before x (y ∷ ys) i = ground (arith, contains-insert_by before x ys i)

-- Sorting keeps the members.
pub contains-order_by :
    (before : String → String → Bool) (xs : List String) (i : String)
    → contains (order_by before xs) i ≡ contains xs i
unfolding order_by
contains-order_by before [] i = refl
contains-order_by before (x ∷ xs) i =
    ground
      (arith, contains-insert_by before x (order_by before xs) i, contains-order_by before xs i)

pub contains-fetch_all :
    (test : String → Bool) (xs : List String) (i : String)
    → contains (fetch_all test xs) i ≡ (test i && contains xs i)
unfolding fetch_all
contains-fetch_all test [] i = ground arith
contains-fetch_all test (x ∷ xs) i = elim (==-cases i x) [
  | inl same ↦ rw same (ground (arith, contains-fetch_all test xs x))
  | inr apart ↦ ground (arith, contains-fetch_all test xs i)
]

module _ {A : Type 0} (key : A → String) where
  -- A key of a dictionary, kept as the list of its values, is found; no other is.
  pub contains-find :
      (i : String) (rows : List A) {row : A}
      → fetch_one (λ r. key r == i) rows ≡ some row
      → contains (map key rows) i ≡ true
  unfolding fetch_one
  contains-find i [] h = cc
  contains-find i (x ∷ rows) {row} h = elim (==-cases i (key x)) [
    | inl same ↦ ground (arith, eq_iff i (key x))
    | inr apart ↦
        let rest = rw (==_comm_false i (key x) apart) at h in
        rw apart (contains-find i rows {row = row} rest)
  ]

  pub find-contains :
      (i : String) (rows : List A)
      → contains (map key rows) i ≡ true
      → (row : A) × (fetch_one (λ r. key r == i) rows ≡ some row)
  unfolding fetch_one
  find-contains i [] h = cc
  find-contains i (x ∷ rows) h = elim (==-cases (key x) i) [
    | inl same ↦ (x, rw ((eq_iff (key x) i).1 same))
    | inr apart ↦
        let (row, found) = find-contains i rows (rw (==_comm_false (key x) i apart) at h) in
        (row, rw apart found)
  ]
