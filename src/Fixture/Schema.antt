-- ===== src/Fixture/Schema.antt =====
-- The tables of assurance/phase2/fixture/store.py (`bootstrap`), its errors and its transactions.
-- The CHECK clauses on `state` are the two enumerations, `audit_complete IN (0,1)` is a Boolean.
use mcp_behaviour_guard.Json.{Json}
use mcp_behaviour_guard.Prelude.{ℕ, String, ◌≡◌, refl, Bool, ◌⊎◌, inl, inr, Option, none, List, []}

pub data AttemptState : Type 0 where
  prepared opened fenced finalized aborted recovery_required : AttemptState

pub data RequestState : Type 0 where
  admitted committed rejected rolled_back failed : RequestState

pub record Attempt : Type 0 where
  pub attempt_id : String
  pub credential_sha256 : String
  pub principal : String
  pub state : AttemptState
  pub created_at : String
  pub opened_at : Option String
  pub fenced_at : Option String
  pub finalized_at : Option String
  pub audit_watermark : ℕ
  pub final_watermark : Option ℕ
  pub final_request_count : Option ℕ
  pub audit_complete : Bool

pub record Request : Type 0 where
  pub attempt_id : String
  pub request_id : String
  pub operation : String
  pub state : RequestState
  pub asserted_attempt_id : Option String
  pub asserted_principal : Option String
  pub created_at : String
  pub finished_at : Option String
  pub rejection_reason : Option String

pub record StoredRecord : Type 0 where
  pub record_id : String
  pub value : String
  pub updated_by_attempt : String
  pub updated_by_request : String
  pub updated_at : String

pub record AuditEvent : Type 0 where
  pub attempt_id : String
  pub seq : ℕ
  pub event_id : String
  pub kind : String
  pub request_id : String
  pub operation : String
  pub principal : String
  pub details_json : String
  pub created_at : String
  pub prev_hash : String
  pub event_hash : String

pub record ObserverCursor : Type 0 where
  pub attempt_id : String
  pub cursor_seq : ℕ

-- The database file. The row of `fixture_meta` is its one column, `active_attempt_id`.
pub record Database : Type 0 where
  pub attempts : List Attempt
  pub active_attempt_id : Option String
  pub requests : List Request
  pub records : List StoredRecord
  pub audit_events : List AuditEvent
  pub observer_cursors : List ObserverCursor

-- The tables as `bootstrap` creates them in a new file.
abbrev pub new_database : Database
new_database = record {
  attempts = [];
  active_attempt_id = none;
  requests = [];
  records = [];
  audit_events = [];
  observer_cursors = [];
}

-- The exceptions, by class. `integrity_error` is SQLite's, for a violated constraint, and
-- `decode_error` stands for what `json.loads` and `**` raise on a text that is no JSON object.
pub data FixtureError : Type 0 where
  fixture_error active_attempt_exists invalid_attempt_state invalid_credential : FixtureError
  stale_credential request_conflict drain_incomplete ledger_integrity_error : FixtureError
  injected_fixture_fault simulated_response_loss integrity_error timeout_error : FixtureError
  decode_error : FixtureError

-- What a method returns or raises.
pub data Result {ℓ} (Value : Type ℓ) : Type ℓ where
  err : FixtureError → Result Value
  ok : Value → Result Value

infixl 5 ◌>>◌ ◌>>=◌
-- An exception ends the block that it is raised in.
abbrev pub ◌>>=◌ {κ ℓ} :
    {Value : Type κ} {Next : Type ℓ} → Result Value → (Value → Result Next) → Result Next
err error >>= rest = err error
ok value >>= rest = rest value

abbrev pub ◌>>◌ {κ ℓ} : {Value : Type κ} {Next : Type ℓ} → Result Value → Result Next → Result Next
first >> rest = first >>= λ _. rest

-- if not test: raise error
abbrev pub require : Bool → FixtureError → Result (Unit {0})
require Bool.true error = ok tt
require Bool.false error = err error

pub Result-cases {ℓ} :
    {A : Type ℓ} (r : Result A) → ((a : A) × (r ≡ ok a)) ⊎ ((e : FixtureError) × (r ≡ err e))
Result-cases (ok a) = inl (a, refl)
Result-cases (err e) = inr (e, refl)

-- What a method leaves: its result or exception, and the database file.
abbrev pub Outcome : Type 0 → Type 0
Outcome A = Result A × Database

-- `commit` after a body that returned, `rollback` after one that raised.
abbrev pub settle : {A : Type 0} → Database → Result (A × Database) → Outcome A
settle db (ok (a, db')) = (ok a, db')
settle db (err e) = (err e, db)

-- BEGIN IMMEDIATE, the body, and its end.
abbrev pub transaction : {A : Type 0} → (Database → Result (A × Database)) → Database → Outcome A
transaction body db = settle db (body db)

-- A property of the file holds after a transaction if it holds before, and after what follows the
-- body's first step wherever that step returns.
pub settle_bind :
    {A B : Type 0} (P : Database → Type 0) (db : Database) (m : Result A)
    (rest : A → Result (B × Database))
    → P db
    → ((a : A) → m ≡ ok a → P (settle db (rest a)).1)
    → P (settle db (m >>= rest)).1
settle_bind P db (ok a) rest before after = after a refl
settle_bind P db (err e) rest before after = before

-- The outcome of a transaction whose first step returns is that of what follows it.
pub settle_ok :
    {A B : Type 0} (db : Database) (m : Result A) (rest : A → Result (B × Database)) (a : A)
    {out : Outcome B}
    → m ≡ ok a
    → settle db (rest a) ≡ out
    → settle db (m >>= rest) ≡ out
settle_ok db m rest a first after = rw first after

pub settle_err :
    {A B : Type 0} (db : Database) (m : Result A) (rest : A → Result (B × Database))
    {e : FixtureError}
    → m ≡ err e
    → settle db (m >>= rest) ≡ (err e, db)
settle_err db m rest first = rw first

pub require_err : {test : Bool} (e : FixtureError) → test ≡ Bool.false → require test e ≡ err e
require_err e h = rw h

pub require_ok : {test : Bool} (e : FixtureError) → test ≡ Bool.true → require test e ≡ ok tt
require_ok e h = rw h

-- What the fixture takes from `hashlib` and `json`: the hexadecimal SHA-256 of a text, a value's
-- JSON text with sorted keys, and a text read back (`none` where it is no JSON).
pub record Platform : Type 0 where
  pub sha256 : String → String
  pub dumps : Json → String
  pub loads : String → Option Json
