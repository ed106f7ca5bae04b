-- ===== src/SavedRun/Error.antt =====
-- What src/mcp_behaviour_guard/baseline.py raises while it loads a saved run. A comparison error
-- keeps the part of its message that does not vary.
use mcp_behaviour_guard.Prelude.{String, ◌≡◌, refl, Bool, ap}

-- `type_error` is Python's for an unhashable value in a set test, `decode_error` its
-- `UnicodeDecodeError` for a file that is not UTF-8; neither is a `SavedRunComparisonError`.
pub data LoadError : Type 0 where
  comparison_error : String → LoadError
  type_error decode_error : LoadError

pub data Loaded {ℓ} (Value : Type ℓ) : Type ℓ where
  err : LoadError → Loaded Value
  ok : Value → Loaded Value

infixl 5 ◌>>◌ ◌>>=◌
abbrev pub ◌>>=◌ {κ ℓ} :
    {Value : Type κ} {Next : Type ℓ} → Loaded Value → (Value → Loaded Next) → Loaded Next
err error >>= rest = err error
ok value >>= rest = rest value

abbrev pub ◌>>◌ {κ ℓ} : {Value : Type κ} {Next : Type ℓ} → Loaded Value → Loaded Next → Loaded Next
first >> rest = first >>= λ _. rest

-- if not test: raise SavedRunComparisonError(message)
abbrev pub require : Bool → String → Loaded (Unit {0})
require Bool.true message = ok tt
require Bool.false message = err (comparison_error message)

pub require-ok :
    (test : Bool) (message : String) {u : Unit {0}} → require test message ≡ ok u → test ≡ Bool.true
require-ok Bool.true message h = refl
require-ok Bool.false message h = cc

-- Inversion of a block that returned: its first step did, and so did the rest on that value.
pub on_ok {κ ℓ μ} :
    {Value : Type κ} {Next : Type ℓ} {Goal : Type μ} (step : Loaded Value)
    (rest : Value → Loaded Next) {last : Next}
    → (step >>= rest) ≡ ok last
    → ((value : Value) → step ≡ ok value → rest value ≡ ok last → Goal)
    → Goal
on_ok (err e) rest returned next = cc
on_ok (ok value) rest returned next = next value refl returned

-- The same, as a triple.
pub >>=-eq-ok {κ ℓ} :
    {Value : Type κ} {Next : Type ℓ} (step : Loaded Value) (rest : Value → Loaded Next)
    {last : Next}
    → (step >>= rest) ≡ ok last
    → (value : Value) × (step ≡ ok value) × (rest value ≡ ok last)
>>=-eq-ok step rest returned = on_ok step rest returned λ value first others. (value, first, others)

or_else {ℓ} : {A : Type ℓ} → A → Loaded A → A
or_else a (ok b) = b
or_else a (err e) = a

pub ok-inj {ℓ} : {A : Type ℓ} {a b : A} → ok a ≡ ok b → a ≡ b
unfolding or_else
ok-inj {a} h = ap (or_else a) h
