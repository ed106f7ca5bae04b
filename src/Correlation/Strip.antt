-- ===== src/Correlation/Strip.antt =====
-- What `strip_internal_correlation` of src/mcp_behaviour_guard/correlation.py leaves of a value.
use mcp_behaviour_guard.Prelude.{
  ◌≡◌, refl, Bool, true, false, not, ◌&&◌, ◌==◌, none, arith, ap, String, Bool-cases, inl, inr,
}
use mcp_behaviour_guard.Json.{
  Json, object, array, null, boolean, integer, float, text, Items, nil, cons, Fields, end, field,
  get?,
}
use mcp_behaviour_guard.Correlation.{
  strip_internal_correlation, strip_items, strip_fields, correlation_meta_key, has_key,
  is_empty_object,
}

mutual
  -- The internal key stands nowhere in the value, at any depth.
  pub is_clean : Json → Bool
  is_clean (object fs) = clean_fields fs
  is_clean (array xs) = clean_items xs
  is_clean v = true

  pub clean_items : Items → Bool
  clean_items nil = true
  clean_items (cons x xs) = is_clean x && clean_items xs

  pub clean_fields : Fields → Bool
  clean_fields end = true
  clean_fields (field key item rest) =
      not (key == correlation_meta_key) && (is_clean item && clean_fields rest)

-- `_meta` held the internal key and nothing else.
abbrev left_empty : String → Json → Bool
left_empty key item =
    key == "_meta" && (has_key item && is_empty_object (strip_internal_correlation item))

pub both_true : (a b : Bool) → (a && b) ≡ true → (a ≡ true) × (b ≡ true)
both_true a b h = ground arith

false_of_not : (a : Bool) → not a ≡ true → a ≡ false
false_of_not a h = ground arith

mutual
  unfolding strip_internal_correlation is_clean

  strip_clean : (v : Json) → is_clean (strip_internal_correlation v) ≡ true
  strip_clean (object fs) = strip_clean_fields fs
  strip_clean (array xs) = strip_clean_items xs
  strip_clean null = refl
  strip_clean (boolean b) = refl
  strip_clean (integer n) = refl
  strip_clean (float x) = refl
  strip_clean (text s) = refl

  strip_clean_items : (xs : Items) → clean_items (strip_items xs) ≡ true
  strip_clean_items nil = refl
  strip_clean_items (cons x xs) = ground (arith, strip_clean x, strip_clean_items xs)

  strip_clean_fields : (fs : Fields) → clean_fields (strip_fields fs) ≡ true
  strip_clean_fields end = refl
  strip_clean_fields (field key item rest) = elim (Bool-cases (key == correlation_meta_key)) [
    | inl own ↦ rw own (strip_clean_fields rest)
    | inr other ↦ elim (Bool-cases (left_empty key item)) [
      | inl bare ↦ rw (other, bare) (strip_clean_fields rest)
      | inr kept ↦ rw (other, kept) (rw (other, strip_clean item) (strip_clean_fields rest))
    ]
  ]

clean_fields-get? : (fs : Fields) → clean_fields fs ≡ true → get? correlation_meta_key fs ≡ none
unfolding is_clean
clean_fields-get? end clean = refl
clean_fields-get? (field key item rest) clean =
    let (apart, inside) = both_true (not (key == correlation_meta_key)) _ clean in
    rw (false_of_not (key == correlation_meta_key) apart)
      (clean_fields-get? rest (both_true (is_clean item) _ inside).1)

is_clean-has_key : (v : Json) → is_clean v ≡ true → has_key v ≡ false
unfolding is_clean
is_clean-has_key (object fs) clean = rw (has_key, clean_fields-get? fs clean) refl
is_clean-has_key (array xs) clean = refl
is_clean-has_key null clean = refl
is_clean-has_key (boolean b) clean = refl
is_clean-has_key (integer n) clean = refl
is_clean-has_key (float x) clean = refl
is_clean-has_key (text s) clean = refl

mutual
  unfolding strip_internal_correlation is_clean

  strip_of_clean : (v : Json) → is_clean v ≡ true → strip_internal_correlation v ≡ v
  strip_of_clean (object fs) clean = ap object (strip_of_clean_fields fs clean)
  strip_of_clean (array xs) clean = ap array (strip_of_clean_items xs clean)
  strip_of_clean null clean = refl
  strip_of_clean (boolean b) clean = refl
  strip_of_clean (integer n) clean = refl
  strip_of_clean (float x) clean = refl
  strip_of_clean (text s) clean = refl

  strip_of_clean_items : (xs : Items) → clean_items xs ≡ true → strip_items xs ≡ xs
  strip_of_clean_items nil clean = refl
  strip_of_clean_items (cons x xs) clean =
      let (first, others) = both_true (is_clean x) (clean_items xs) clean in
      rw (strip_of_clean x first, strip_of_clean_items xs others) refl

  strip_of_clean_fields : (fs : Fields) → clean_fields fs ≡ true → strip_fields fs ≡ fs
  strip_of_clean_fields end clean = refl
  strip_of_clean_fields (field key item rest) clean =
      let (apart, inside) = both_true (not (key == correlation_meta_key)) _ clean in
      let (here, others) = both_true (is_clean item) (clean_fields rest) inside in
      rw
        (
          false_of_not (key == correlation_meta_key) apart,
          strip_of_clean item here,
          is_clean-has_key item here,
          strip_of_clean_fields rest others,
        )
        (elim (Bool-cases (key == "_meta")) [ inl e ↦ rw e refl | inr e ↦ rw e refl ])

-- `strip_internal_correlation` leaves nothing of the internal metadata at any depth, it keeps a
-- value without it as it is, and so to strip twice is to strip once.
pub strip_internal_correlation_lem :
    (v : Json)
    → (is_clean (strip_internal_correlation v) ≡ true)
      × (is_clean v ≡ true → strip_internal_correlation v ≡ v)
      × (strip_internal_correlation (strip_internal_correlation v) ≡ strip_internal_correlation v)
strip_internal_correlation_lem v =
    (strip_clean v, strip_of_clean v, strip_of_clean (strip_internal_correlation v) (strip_clean v))
