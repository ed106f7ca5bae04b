-- ===== src/Engine/State.antt =====
-- The engine's fields that change, the calls that leave the process, and the monad of its methods:
-- src/mcp_behaviour_guard/engine.py's `GuardEngine`. An exception keeps what was recorded before
-- it. The store and the trace file are written beside the two lists, with the same rows.
use mcp_behaviour_guard.Prelude.{ℕ, String, Bool, Option, none, some, List, [], ◌∷◌, ◌++◌}
use mcp_behaviour_guard.Json.{Json, Fields}
use mcp_behaviour_guard.Evidence.{Filters}
use mcp_behaviour_guard.Models.{Contract, Finding, InvocationRecord}
use mcp_behaviour_guard.Client.{ClientCall, Exchange, Folding, SessionReply}
use mcp_behaviour_guard.Engine.Claims.{Matching}
use mcp_behaviour_guard.Engine.Observing.{ObserverHandle, Collected}

-- What Python raises inside a check. `resolve_error` is the `RuntimeError` or `OSError` of a root
-- that cannot be resolved.
pub data EngineError : Type 0 where
  key_error index_error resolve_error : EngineError

pub data Raised (A : Type 0) : Type 0 where
  raise : EngineError → Raised A
  done : A → Raised A

pub record EngineState (World : Type 0) : Type 0 where
  pub findings : List Finding
  pub invocations : List InvocationRecord
  pub positive_controls : List (String × Bool)
  pub identity_positive_controls : List (String × String)
  pub discovery_ok : Bool
  pub world : World

-- A method of the engine.
pub record Guard (World : Type 0) (A : Type 0) : Type 0 where
  pub run : EngineState World → Raised A × EngineState World

-- The world outside: the target, the observers and `uuid4`. `none` is an exception, apart from
-- `begin`, where it is none. A session is opened for an identity, answers snapshots and calls, and
-- is closed; `close_session` says whether that raised.
pub record Outside (World : Type 0) : Type 0 where
  pub exchange : ClientCall → World → Exchange × World
  pub begin : ObserverHandle → World → Option String × World
  pub collect : ObserverHandle → World → Collected × World
  pub fresh_id : World → String × World
  pub list_tools : String → World → Option (List Fields) × World
  pub open_session : String → World → Option (Unit {0}) × World
  pub snapshot : World → Option Fields × World
  pub call_on_session : ClientCall → World → SessionReply × World
  pub close_session : World → Bool × World

-- What the checks take from Python's library: `upper().replace("_", "-")`, `json.dumps(…,
-- default=str)`, the format `02d`, `os.getenv(name, "")`, and the parts of a path that `resolve` gives,
-- `none` where it raises, for a value of a response and for a root of the contract (a path with a
-- null character, on which `resolve` raises a `ValueError`, is left out).
pub record Library : Type 0 where
  pub matching : Matching
  pub folding : Folding
  pub upper_dashed : String → String
  pub json_text : Json → String
  pub two_digits : ℕ → String
  pub stable_hash : Json → String
  pub getenv : String → String
  pub resolve : String → Option (List String)
  pub resolve_root : String → Option (List String)
  pub filters : Filters

-- The fields that `__init__` sets for good.
pub record GuardEngine (World : Type 0) : Type 0 where
  pub contract : Contract
  pub lab_mode : Bool
  pub run_id : String
  pub secrets : List String
  pub observers : List ObserverHandle
  pub outside : Outside World
  pub library : Library

module _ {World : Type 0} where
  abbrev pub after_step :
      {A B : Type 0}
      → (A → Guard World B)
      → Raised A × EngineState World
      → Raised B × EngineState World
  after_step rest (raise e, s) = (raise e, s)
  after_step rest (done a, s) = (rest a).run s

  infixl 5 ◌>>◌ ◌>>=◌
  unfoldable pub ◌>>=◌ : {A B : Type 0} → Guard World A → (A → Guard World B) → Guard World B
  method >>= rest = record { run = λ s. after_step rest (method.run s) }

  abbrev pub ◌>>◌ : {A B : Type 0} → Guard World A → Guard World B → Guard World B
  method >> rest = method >>= λ _. rest

  unfoldable pub return : {A : Type 0} → A → Guard World A
  return a = record { run = λ s. (done a, s) }

  unfoldable pub throw : {A : Type 0} → EngineError → Guard World A
  throw e = record { run = λ s. (raise e, s) }

  unfoldable pub read : {A : Type 0} → (EngineState World → A) → Guard World A
  read field = record { run = λ s. (done (field s), s) }

  unfoldable pub change : (EngineState World → EngineState World) → Guard World Unit
  change f = record { run = λ s. (done tt, f s) }

  -- A call that leaves the process.
  unfoldable pub outside_call : {A : Type 0} → (World → A × World) → Guard World A
  outside_call call = record {
    run = λ s. let (a, w) = call s.world in (done a, record s { world = w });
  }

  -- d[key]
  unfoldable pub item_or_throw : {A : Type 0} → Option A → Guard World A
  item_or_throw none = throw key_error
  item_or_throw (some a) = return a

  -- for item in items: …
  unfoldable pub each : {A : Type 0} → (A → Guard World Unit) → List A → Guard World Unit
  each body [] = return tt
  each body (item ∷ items) = body item >> each body items

  -- _add_finding
  unfoldable pub add_finding : Finding → Guard World Unit
  add_finding finding = change λ s. record s { findings = s.findings ++ finding ∷ [] }
