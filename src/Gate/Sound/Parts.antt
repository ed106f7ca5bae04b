-- ===== src/Gate/Sound/Parts.antt =====
-- The steps of `_evaluate` of assurance/phase2/gate/gate.py that leave no error.
use mcp_behaviour_guard.Prelude.{
  String, true, ◌≡◌, refl, Option, none, some, List, [], arith, ap, is_empty, ◌==◌, eq_iff, map,
  ◌∷◌, Bool, false, ◌≢◌, ◌∙◌,
}
use mcp_behaviour_guard.Json.{Json, text, null, boolean, integer, float, array, object, Fields}
use mcp_behaviour_guard.SavedRun.Value.{get, json_eq}
use mcp_behaviour_guard.SavedRun.Load.{StoredFile, absent, present, Content}
use mcp_behaviour_guard.Gate.{Checked, refused, crashed, accepted, ◌>>=◌, is_text}
use mcp_behaviour_guard.Gate.Snapshot.Ledger.{unless-nil}
use mcp_behaviour_guard.Gate.Context.{binding_errors, source_digest_errors, digest_in}
use mcp_behaviour_guard.Gate.Decision.{pass_outcome}
use mcp_behaviour_guard.Gate.Decision.{
  outcome_of, Evidence, policy_part, if_clean, error_list, caught, when,
}

-- A value that equals a text is that text.
pub is_text-eq : (s : String) (value : Json) → is_text s value ≡ true → value ≡ text s
unfolding json_eq
is_text-eq s (text t) h = ap text ((eq_iff t s).0 h)
is_text-eq s null h = ground arith
is_text-eq s (boolean b) h = ground arith
is_text-eq s (integer n) h = ground arith
is_text-eq s (float x) h = ground arith
is_text-eq s (array xs) h = ground arith
is_text-eq s (object fs) h = ground arith

-- The file has the digest that the context names.
abbrev pub IsNamed : Fields → String → StoredFile → Type 0
IsNamed context key file =
    (digest : String) × (content : Content) × (get key context ≡ text digest)
    × (file ≡ present digest content)

pub digest_in-text :
    (value : Json) (digest : String) → digest_in value ≡ some digest → value ≡ text digest
digest_in-text (text s) digest h = ground arith
digest_in-text null digest h = ground arith
digest_in-text (boolean b) digest h = ground arith
digest_in-text (integer n) digest h = ground arith
digest_in-text (float x) digest h = ground arith
digest_in-text (array xs) digest h = ground arith
digest_in-text (object fs) digest h = ground arith

pub source_digest_errors-nil :
    (key : String) (named : Option String) (label : String) (file : StoredFile)
    → source_digest_errors key named label file ≡ []
    → (digest : String) × (content : Content) × (named ≡ some digest)
      × (file ≡ present digest content)
unfolding source_digest_errors
source_digest_errors-nil key none label file h = absurd (ground arith)
source_digest_errors-nil key (some expected) label absent h = absurd (ground arith)
source_digest_errors-nil key (some expected) label (present actual content) h = (
  expected,
  content,
  refl,
  ap (λ d. present d content) ((eq_iff actual expected).0 (unless-nil (actual == expected) _ h)),
)

pub accepted_step :
    {A B : Type 0} (step : Checked A) (rest : A → Checked B) (b : B)
    → (step >>= rest) ≡ accepted b
    → (a : A) × (step ≡ accepted a) × (rest a ≡ accepted b)
accepted_step (accepted a) rest b h = (a, refl, h)
accepted_step (refused message) rest b h = absurd (ground arith)
accepted_step crashed rest b h = absurd (ground arith)

value_or : {A : Type 0} → A → Checked A → A
value_or a (accepted b) = b
value_or a _ = a

pub accepted-injective : {A : Type 0} (a b : A) → accepted a ≡ accepted b → a ≡ b
unfolding value_or
accepted-injective a b h = ap (value_or a) h

pub pass_parts :
    (authority_errors binding_errors : List String) (evidence : Evidence)
    → outcome_of authority_errors binding_errors evidence ≡ pass_outcome
    → (is_empty authority_errors ≡ true)
      × (is_empty binding_errors ≡ true)
      × (is_empty evidence.confirmed_violations ≡ true)
      × (is_empty evidence.completion_invalid ≡ true)
      × (is_empty evidence.review_reasons ≡ true)
unfolding outcome_of
pass_parts authority_errors binding_errors evidence h =
    (ground arith, ground arith, ground arith, ground arith, ground arith)

pub cons-ne-nil : {A : Type 0} (x : A) (xs : List A) → x ∷ xs ≢ []
cons-ne-nil x xs h = ground arith

pub map-nil : {A B : Type 0} (f : A → B) (xs : List A) → map f xs ≡ [] → xs ≡ []
map-nil f [] h = refl
map-nil f (x ∷ xs) h = ground arith

pub is_empty-eq : {A : Type 0} (xs : List A) → is_empty xs ≡ true → xs ≡ []
is_empty-eq [] h = refl
is_empty-eq (x ∷ xs) h = ground arith

pub policy_part-nil :
    (policy_file : StoredFile) (validated : Checked (Fields × String))
    (found : (Fields × String) × List String)
    → policy_part policy_file validated ≡ accepted found
    → found.1 ≡ []
    → validated ≡ accepted found.0
policy_part-nil policy_file (accepted p) found h e =
    ap accepted (ap (λ x. x.0) (accepted-injective _ _ h))
policy_part-nil policy_file (refused message) found h e =
    absurd (cons-ne-nil _ _ (ap (λ x. x.1) (accepted-injective _ _ h) ∙ e))
policy_part-nil policy_file crashed found h e = absurd (ground arith)

pub if_clean-nil :
    (early : List String) (later : Checked (List String))
    → if_clean early later ≡ accepted []
    → early ≡ []
if_clean-nil [] later h = refl
if_clean-nil (e ∷ errors) later h = accepted-injective _ _ h

pub error_list-nil :
    (step : Checked (List String)) → error_list step ≡ accepted [] → step ≡ accepted []
error_list-nil (accepted errors) h = h
error_list-nil (refused message) h = absurd (cons-ne-nil _ _ (accepted-injective _ _ h))
error_list-nil crashed h = absurd (ground arith)

pub when-true :
    (b : Bool) (step : Checked Evidence) (evidence : Evidence)
    → b ≡ true
    → when b step ≡ accepted evidence
    → step ≡ accepted evidence
when-true true step evidence b h = h
when-true false step evidence b h = absurd (ground arith)

-- An exception would be noted.
pub caught-clean :
    (source : String) (step : Checked Evidence) (evidence : Evidence)
    → caught source step ≡ accepted evidence
    → evidence.completion_invalid ≡ []
    → step ≡ accepted evidence
caught-clean source (accepted found) evidence h e = h
caught-clean source (refused message) evidence h e =
    absurd (cons-ne-nil _ _ (ap (λ v. v.completion_invalid) (accepted-injective _ _ h) ∙ e))
caught-clean source crashed evidence h e = absurd (ground arith)
