-- ===== src/Evidence/Labels.antt =====
-- What `redact` of src/mcp_behaviour_guard/evidence.py leaves under a label, at any depth.
use mcp_behaviour_guard.Prelude.{
  ◌==◌, ◌||◌, String, Bool, true, false, ◌≡◌, refl, ◌&&◌, List, Bool-cases, inl, inr, contains,
}
use mcp_behaviour_guard.Json.{
  Json, null, boolean, integer, float, text, array, object, Items, nil, cons, Fields, end, field,
}
use mcp_behaviour_guard.Evidence.{
  Filters, Rule, omit_value, mask_value, walk_value, only_values, rule_of, redact, redact_items,
  redact_fields, only, apply_rule,
}

module _ (filters : Filters) where
  -- The value under a label says no more than the label's rule lets through.
  abbrev pub allowed_by : Rule → Json → Bool → Bool
  allowed_by omit_value (text s) walked = s == "[omitted from exported evidence]"
  allowed_by omit_value _ walked = false
  allowed_by mask_value (text s) walked = s == "[redacted]"
  allowed_by mask_value _ walked = false
  allowed_by (only_values allowed) (text s) walked = contains allowed s || s == "[redacted]"
  allowed_by (only_values allowed) _ walked = false
  allowed_by walk_value v walked = walked

  mutual
    -- Every label of the value, at any depth, has what its rule allows.
    pub is_redacted : Json → Bool
    is_redacted (object fs) = fields_redacted fs
    is_redacted (array xs) = items_redacted xs
    is_redacted v = true

    pub items_redacted : Items → Bool
    items_redacted nil = true
    items_redacted (cons x xs) = is_redacted x && items_redacted xs

    pub fields_redacted : Fields → Bool
    fields_redacted end = true
    fields_redacted (field label item rest) =
        allowed_by (rule_of filters label) item (is_redacted item) && fields_redacted rest

  only_allowed :
      (allowed : List String) (item : Json)
      → allowed_by (only_values allowed) (only allowed item) (is_redacted (only allowed item))
        ≡ true
  only_allowed allowed (text s) = elim (Bool-cases (contains allowed s)) [
    | inl h ↦ rw h (rw h refl)
    | inr h ↦ rw h (elim (Bool-cases (contains allowed "[redacted]")) [
      | inl e ↦ rw e refl
      | inr e ↦ rw e refl
    ])
  ]
  only_allowed allowed null = elim (Bool-cases (contains allowed "[redacted]")) [
    | inl e ↦ rw e refl
    | inr e ↦ rw e refl
  ]
  only_allowed allowed (boolean b) = elim (Bool-cases (contains allowed "[redacted]")) [
    | inl e ↦ rw e refl
    | inr e ↦ rw e refl
  ]
  only_allowed allowed (integer n) = elim (Bool-cases (contains allowed "[redacted]")) [
    | inl e ↦ rw e refl
    | inr e ↦ rw e refl
  ]
  only_allowed allowed (float x) = elim (Bool-cases (contains allowed "[redacted]")) [
    | inl e ↦ rw e refl
    | inr e ↦ rw e refl
  ]
  only_allowed allowed (array xs) = elim (Bool-cases (contains allowed "[redacted]")) [
    | inl e ↦ rw e refl
    | inr e ↦ rw e refl
  ]
  only_allowed allowed (object fs) = elim (Bool-cases (contains allowed "[redacted]")) [
    | inl e ↦ rw e refl
    | inr e ↦ rw e refl
  ]

  apply_rule-allowed_by :
      (rule : Rule) (item walked : Json)
      → is_redacted walked ≡ true
      → allowed_by rule
          (apply_rule filters rule item walked)
          (is_redacted (apply_rule filters rule item walked))
        ≡ true
  apply_rule-allowed_by omit_value item walked h = refl
  apply_rule-allowed_by mask_value item walked h = refl
  apply_rule-allowed_by walk_value item walked h = h
  apply_rule-allowed_by (only_values allowed) item walked h = only_allowed allowed item

  mutual
    unfolding redact is_redacted

    redact_lem : (secrets : List String) (v : Json) → is_redacted (redact filters secrets v) ≡ true
    redact_lem secrets (object fs) = redact_fields_lem secrets fs
    redact_lem secrets (array xs) = redact_items_lem secrets xs
    redact_lem secrets null = refl
    redact_lem secrets (boolean b) = refl
    redact_lem secrets (integer n) = refl
    redact_lem secrets (float x) = refl
    redact_lem secrets (text s) = refl

    redact_items_lem :
        (secrets : List String) (xs : Items)
        → items_redacted (redact_items filters secrets xs) ≡ true
    redact_items_lem secrets nil = refl
    redact_items_lem secrets (cons x xs) =
        rw (redact_lem secrets x, redact_items_lem secrets xs) refl

    redact_fields_lem :
        (secrets : List String) (fs : Fields)
        → fields_redacted (redact_fields filters secrets fs) ≡ true
    redact_fields_lem secrets end = refl
    redact_fields_lem secrets (field label item rest) =
        rw
          (
            apply_rule-allowed_by (rule_of filters label) item (redact filters secrets item)
                (redact_lem secrets item),
            redact_fields_lem secrets rest,
          )
          refl

-- Whatever is exported through `redact` has, at every depth, nothing but the omission notice under
-- a label of a response, nothing but the mask under a sensitive label that is not exempt, and under
-- the labels of an assertion or of an authorization one of its fixed values or the mask.
pub redact-is_redacted :
    (filters : Filters) (secrets : List String) (v : Json)
    → is_redacted filters (redact filters secrets v) ≡ true
redact-is_redacted filters secrets v = redact_lem filters secrets v
