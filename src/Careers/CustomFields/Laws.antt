-- ===== src/Careers/CustomFields/Laws.antt =====
-- When the answers to a posting's custom fields are accepted.
use all_service_api.Common.{
  Bool-cases, Option-cases, any, All, custom_field_validation_failed, bad_request, ok, err, ℕ,
  String, ◌≡◌, refl, ap, ◌↔◌, ◌⊎◌, inl, inr, Bool, true, false, Option, none, some, List, [], ◌∷◌,
  arith, str_eq,
}
use all_service_api.Careers.State.{
  CustomFieldDefinition, CustomFieldType, textarea, select, url, ResponseValue,
}
use all_service_api.Careers.CustomFields.{
  add_complaint, is_empty, field_errors, response, validate_custom_responses, check_field,
  expect_string, expect_boolean, expect_number, expect_option, is_blank, check_type,
}

-- A value of the kind that the field's type asks for.
abbrev pub HasKind : Option (List String) → CustomFieldType → ResponseValue → Type 0
HasKind options CustomFieldType.text v = (s : String) × (v ≡ ResponseValue.text s)
HasKind options textarea v = (s : String) × (v ≡ ResponseValue.text s)
HasKind options url v = (s : String) × (v ≡ ResponseValue.text s)
HasKind options CustomFieldType.number v = (n : ℕ) × (v ≡ ResponseValue.number n)
HasKind options CustomFieldType.boolean v = (b : Bool) × (v ≡ ResponseValue.boolean b)
HasKind none select v = (s : String) × (v ≡ ResponseValue.text s)
HasKind (some choices) select v =
    (s : String) × (v ≡ ResponseValue.text s) × (any (λ o. str_eq o s) choices ≡ true)

-- An answer that is missing or empty is for an optional field, and any other is of its kind.
pub data IsAcceptable (field : CustomFieldDefinition) (value : Option ResponseValue) : Type 0 where
  left_out : is_blank value ≡ true → field.required ≡ false → IsAcceptable field value
  filled_in :
      (v : ResponseValue)
      → value ≡ some v
      → is_blank value ≡ false
      → HasKind field.options field.type v
      → IsAcceptable field value

expect_string-none_iff :
    (v : ResponseValue) → (expect_string v ≡ none) ↔ ((s : String) × (v ≡ ResponseValue.text s))
expect_string-none_iff (ResponseValue.text s) = (λ h. (s, refl), λ h. refl)
expect_string-none_iff v = (λ h. cc, λ (s, e). cc)

expect_number-none_iff :
    (v : ResponseValue) → (expect_number v ≡ none) ↔ ((n : ℕ) × (v ≡ ResponseValue.number n))
expect_number-none_iff (ResponseValue.number n) = (λ h. (n, refl), λ h. refl)
expect_number-none_iff v = (λ h. cc, λ (s, e). cc)

expect_boolean-none_iff :
    (v : ResponseValue) → (expect_boolean v ≡ none) ↔ ((b : Bool) × (v ≡ ResponseValue.boolean b))
expect_boolean-none_iff (ResponseValue.boolean b) = (λ h. (b, refl), λ h. refl)
expect_boolean-none_iff v = (λ h. cc, λ (s, e). cc)

expect_option-none_iff :
    (options : Option (List String)) (v : ResponseValue)
    → (expect_option options v ≡ none) ↔ HasKind options select v
expect_option-none_iff none (ResponseValue.text s) = (λ h. (s, refl), λ h. refl)
expect_option-none_iff none v = (λ h. cc, λ (s, e). cc)
expect_option-none_iff (some choices) (ResponseValue.text s) =
    (λ h. (s, refl, ground arith), λ (t, e, h). ground arith)
expect_option-none_iff (some choices) v = (λ h. cc, λ (s, e, h). cc)

check_type-none_iff :
    (f : CustomFieldDefinition) (type : CustomFieldType) (v : ResponseValue)
    → (check_type f type v ≡ none) ↔ HasKind f.options type v
unfolding check_type
check_type-none_iff f CustomFieldType.text v = expect_string-none_iff v
check_type-none_iff f textarea v = expect_string-none_iff v
check_type-none_iff f url v = expect_string-none_iff v
check_type-none_iff f CustomFieldType.number v = expect_number-none_iff v
check_type-none_iff f CustomFieldType.boolean v = expect_boolean-none_iff v
check_type-none_iff f select v = expect_option-none_iff f.options v

check_field-none_iff :
    (f : CustomFieldDefinition) (responses : List (String × ResponseValue))
    → (check_field f responses ≡ none) ↔ IsAcceptable f (response f.id responses)
unfolding check_field
check_field-none_iff f responses = (to, from)
  where
    to : check_field f responses ≡ none → IsAcceptable f (response f.id responses)
    to h = elim (Bool-cases (is_blank (response f.id responses))) [
      | inl b ↦ left_out b (ground arith)
      | inr b ↦ elim (Option-cases (response f.id responses)) [
        | inl e ↦ absurd (cc (b, ap is_blank e))
        | inr (v, e) ↦ filled_in v e b ((check_type-none_iff f f.type v).0 (ground arith))
      ]
    ]

    from : IsAcceptable f (response f.id responses) → check_field f responses ≡ none
    from (left_out b r) = rw (b, r)
    from (filled_in v e b k) = let good = (check_type-none_iff f f.type v).1 k in ground arith

field_errors-nil_iff :
    (fields : List CustomFieldDefinition) (responses : List (String × ResponseValue))
    → (is_empty (field_errors fields responses) ≡ true)
      ↔ All (λ f. IsAcceptable f (response f.id responses)) fields
unfolding field_errors
field_errors-nil_iff [] responses = (λ h. tt, λ h. refl)
field_errors-nil_iff (f ∷ fields) responses =
    let (to, from) = check_field-none_iff f responses in
    let (later, earlier) = field_errors-nil_iff fields responses in
    elim (Option-cases (check_field f responses)) [
      | inl e ↦ rw (e, add_complaint) (λ h. (to e, later h), λ (k, h). earlier h)
      | inr (c, e) ↦ rw (e, add_complaint) (λ h. cc, λ (k, h). cc (e, from k))
    ]

-- The answers pass exactly when each field has an acceptable answer; otherwise they are refused as
-- a bad request.
pub validate_custom_responses_iff :
    {S : Type 0} (fields : List CustomFieldDefinition) (responses : List (String × ResponseValue))
    (s : S)
    → ((validate_custom_responses fields responses s ≡ (ok tt, s))
        ↔ All (λ f. IsAcceptable f (response f.id responses)) fields)
      × ((validate_custom_responses fields responses s ≡ (ok tt, s))
          ⊎ (validate_custom_responses fields responses s
              ≡ (err (bad_request custom_field_validation_failed), s)))
unfolding validate_custom_responses
validate_custom_responses_iff fields responses s =
    let (to, from) = field_errors-nil_iff fields responses in
    ((λ h. to (ground arith), λ h. ground (arith, from h)), ground arith)
