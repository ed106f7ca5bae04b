-- ===== src/Engine/Keeps.antt =====
-- Properties of the state that a method of the engine keeps, what it may raise, and how the forms
-- of src/mcp_behaviour_guard/engine.py's methods keep to them.
use mcp_behaviour_guard.Prelude.{
  Bool, true, false, ◌≡◌, refl, if◌then◌else◌, Option, none, some, List, [], ◌∷◌,
}
use mathlib.Core.List.{Memᴰ}
use mcp_behaviour_guard.Engine.State.{
  EngineState, EngineError, Guard, Raised, raise, done, key_error, ◌>>=◌, return, throw, read,
  item_or_throw, each, after_step, change,
}

-- What is raised, if anything is, is one of the expected exceptions.
abbrev pub RaisesOnly : (EngineError → Type 0) → {A : Type 0} → Raised A → Type 0
RaisesOnly R (raise e) = R e
RaisesOnly R (done a) = Unit

-- The property holds after the method, with a result or an expected exception, where it held
-- before.
pub record Keeps {World : Type 0} (P : EngineState World → Type 0) (R : EngineError → Type 0)
    {A : Type 0} (method : Guard World A) : Type 0 where
  pub holds : (s : EngineState World) → P s → RaisesOnly R (method.run s).0 × P (method.run s).1

module _ {World : Type 0} {P : EngineState World → Type 0} {R : EngineError → Type 0} where
  after_step-Keeps :
      {A B : Type 0} (rest : A → Guard World B)
      → ((a : A) → Keeps P R (rest a))
      → (r : Raised A × EngineState World) → RaisesOnly R r.0 × P r.1
      → RaisesOnly R (after_step rest r).0 × P (after_step rest r).1
  after_step-Keeps rest k (raise e, s) p = p
  after_step-Keeps rest k (done a, s) (raised, p) = (k a).holds s p

  pub bind-Keeps :
      {A B : Type 0} {method : Guard World A} {rest : A → Guard World B}
      → Keeps P R method
      → ((a : A) → Keeps P R (rest a))
      → Keeps P R (method >>= rest)
  unfolding ◌>>=◌
  bind-Keeps {method} {rest} h k = record {
    holds = λ s p. after_step-Keeps rest k (method.run s) (h.holds s p);
  }

  pub return-Keeps : {A : Type 0} (a : A) → Keeps P R (return a)
  unfolding return
  return-Keeps a = record { holds = λ s p. (tt, p) }

  pub read-Keeps : {A : Type 0} (field : EngineState World → A) → Keeps P R (read field)
  unfolding read
  read-Keeps field = record { holds = λ s p. (tt, p) }

  pub throw-Keeps : {A : Type 0} (e : EngineError) → R e → Keeps P R {A = A} (throw e)
  unfolding throw
  throw-Keeps e r = record { holds = λ s p. (r, p) }

  -- The rest runs only on an item that is there, and a KeyError is raised only where it is not.
  pub item-Keeps :
      {A B : Type 0} (item : Option A) {rest : A → Guard World B}
      → (item ≡ none → R key_error)
      → ((a : A) → item ≡ some a → Keeps P R (rest a))
      → Keeps P R (item_or_throw item >>= rest)
  unfolding item_or_throw ◌>>=◌ throw return
  item-Keeps none r k = record { holds = λ s p. (r refl, p) }
  item-Keeps (some a) r k = record { holds = λ s p. (k a refl).holds s p }

  pub change-Keeps :
      (f : EngineState World → EngineState World)
      → ((s : EngineState World) → P s → P (f s))
      → Keeps P R (change f)
  unfolding change
  change-Keeps f k = record { holds = λ s p. (tt, k s p) }

  pub if-Keeps :
      {A : Type 0} {method other : Guard World A} (b : Bool)
      → (b ≡ true → Keeps P R method)
      → (b ≡ false → Keeps P R other)
      → Keeps P R (if b then method else other)
  if-Keeps true h k = h refl
  if-Keeps false h k = k refl

  -- A loop keeps what its body keeps at every item.
  pub each-Keeps :
      {A : Type 0} {body : A → Guard World Unit} (items : List A)
      → ((a : A) → Memᴰ a items → Keeps P R (body a))
      → Keeps P R (each body items)
  unfolding each
  each-Keeps [] h = return-Keeps _
  each-Keeps (item ∷ items) h =
      bind-Keeps (h item (Memᴰ.head refl)) (λ _. each-Keeps items (λ a m. h a (Memᴰ.tail m)))
