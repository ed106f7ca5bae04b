-- ===== src/Prelude/Table.antt =====
-- A SQL table as the list of its rows, with the queries that the program runs on one: the first
-- row that fits, all rows that fit, an update of the rows that fit, and an ordered result.
use Prim.Native.Nat.{◌+◌}
use mathlib.Core.Path.{◌≡◌, refl}
use mathlib.Core.Bool.{Bool, true, false}
use mathlib.Core.Option
use mathlib.Core.Option.{Option, none, some}
use mathlib.Core.List.{List, [], ◌∷◌, ◌++◌}
use native.Mathlib.Omega.{arith}
use mcp_behaviour_guard.Prelude.Tests.{if◌then◌else◌}
use mcp_behaviour_guard.Prelude.Lists.{any, length}

module _ {ℓ} {A : Type ℓ} where
  -- SELECT … WHERE test, and `fetchone`.
  unfoldable pub fetch_one : (A → Bool) → List A → Option A
  fetch_one test [] = none
  fetch_one test (x ∷ xs) = if test x then some x else fetch_one test xs

  -- SELECT … WHERE test, and `fetchall`.
  unfoldable pub fetch_all : (A → Bool) → List A → List A
  fetch_all test [] = []
  fetch_all test (x ∷ xs) = let rest = fetch_all test xs in if test x then x ∷ rest else rest

  -- UPDATE … SET change WHERE test.
  unfoldable pub update : (A → Bool) → (A → A) → List A → List A
  update test change [] = []
  update test change (x ∷ xs) = (if test x then change x else x) ∷ update test change xs

  -- The place of a row in an ordered result.
  unfoldable pub insert_by : (A → A → Bool) → A → List A → List A
  insert_by before x [] = x ∷ []
  insert_by before x (y ∷ ys) = if before x y then x ∷ y ∷ ys else y ∷ insert_by before x ys

  -- ORDER BY.
  unfoldable pub order_by : (A → A → Bool) → List A → List A
  unfolding insert_by
  order_by before [] = []
  order_by before (x ∷ xs) = insert_by before x (order_by before xs)

  -- What a query for one row finds when a row is inserted behind the others.
  abbrev pub or_row : (A → Bool) → A → Option A → Option A
  or_row test x none = if test x then some x else none
  or_row test x (some y) = some y

  pub or_row_ne :
      (test : A → Bool) (x : A) (found : Option A) → test x ≡ false → or_row test x found ≡ found
  or_row_ne test x none h = rw h
  or_row_ne test x (some y) h = refl

  pub fetch_one-append_row :
      (test : A → Bool) (xs : List A) (x : A)
      → fetch_one test (xs ++ x ∷ []) ≡ or_row test x (fetch_one test xs)
  unfolding fetch_one
  fetch_one-append_row test [] x = refl
  fetch_one-append_row test (y ∷ xs) x = ground (arith, fetch_one-append_row test xs x)

  -- An inserted row joins the result if it passes the test.
  pub fetch_all-append_row :
      (test : A → Bool) (xs : List A) (x : A)
      → fetch_all test (xs ++ x ∷ [])
        ≡ (if test x then fetch_all test xs ++ x ∷ [] else fetch_all test xs)
  unfolding fetch_all
  fetch_all-append_row test [] x = refl
  fetch_all-append_row test (y ∷ xs) x = ground (arith, fetch_all-append_row test xs x)

  -- An update whose test no row passes changes nothing.
  pub update_none :
      (test : A → Bool) (change : A → A) (xs : List A)
      → any test xs ≡ false
      → update test change xs ≡ xs
  unfolding update
  update_none test change [] h = refl
  update_none test change (x ∷ xs) h = ground (arith, update_none test change xs)

  pub update-append_row :
      (test : A → Bool) (change : A → A) (xs : List A) (x : A)
      → update test change (xs ++ x ∷ [])
        ≡ update test change xs ++ (if test x then change x else x) ∷ []
  unfolding update
  update-append_row test change [] x = refl
  update-append_row test change (y ∷ xs) x = ground (arith, update-append_row test change xs x)

  -- An update that the query's test cannot see changes the row found and no other.
  pub fetch_one-update :
      (test where_test : A → Bool) (change : A → A) (xs : List A)
      → ((x : A) → test (change x) ≡ test x)
      → fetch_one test (update where_test change xs)
        ≡ Option.map (λ x. if where_test x then change x else x) (fetch_one test xs)
  unfolding fetch_one update
  fetch_one-update test where_test change [] h = refl
  fetch_one-update test where_test change (x ∷ xs) h =
      ground (arith, h x, fetch_one-update test where_test change xs h)

  pub fetch_all-update :
      (test where_test : A → Bool) (change : A → A) (xs : List A)
      → ((x : A) → test (change x) ≡ test x)
      → fetch_all test (update where_test change xs) ≡ update where_test change (fetch_all test xs)
  unfolding fetch_all update
  fetch_all-update test where_test change [] h = refl
  fetch_all-update test where_test change (x ∷ xs) h =
      ground (arith, h x, fetch_all-update test where_test change xs h)

  pub fetch_one_passes :
      (test : A → Bool) (xs : List A) {x : A} → fetch_one test xs ≡ some x → test x ≡ true
  unfolding fetch_one
  fetch_one_passes test [] h = ground arith
  fetch_one_passes test (y ∷ xs) {x} h = ground (arith, fetch_one_passes test xs {x = x})

  pub length-insert_by :
      (before : A → A → Bool) (x : A) (ys : List A) → length (insert_by before x ys) ≡ 1 + length ys
  unfolding insert_by
  length-insert_by before x [] = refl
  length-insert_by before x (y ∷ ys) = ground (arith, length-insert_by before x ys)

  -- An ordered result has as many rows as the table.
  pub length-order_by :
      (before : A → A → Bool) (xs : List A) → length (order_by before xs) ≡ length xs
  unfolding order_by
  length-order_by before [] = refl
  length-order_by before (x ∷ xs) =
      ground (arith, length-insert_by before x (order_by before xs), length-order_by before xs)
