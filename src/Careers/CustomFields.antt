-- ===== src/Careers/CustomFields.antt =====
-- `validateCustomResponses` of src/modules/careers/application.service.ts.
pub mod Laws
use all_service_api.Common.{
  if◌then◌else◌, length, any, custom_field_validation_failed, bad_request, M, require, ◌*◌, String,
  Bool, true, false, ◌&&◌, ◌||◌, Option, none, some, List, [], ◌∷◌, str_eq,
}
use all_service_api.Careers.State.{
  CustomFieldDefinition, CustomFieldType, textarea, select, url, number, boolean, ResponseValue,
}

-- `responses[field.id]`; `undefined` is `none`. The last entry of a key would win in an object;
-- a JSON object has one entry for a key.
unfoldable pub response : String → List (String × ResponseValue) → Option ResponseValue
response id [] = none
response id ((key, value) ∷ rest) = if str_eq key id then some value else response id rest

-- `value === undefined || value === null || value === ''`
abbrev pub is_blank : Option ResponseValue → Bool
is_blank none = true
is_blank (some (ResponseValue.text s)) = str_eq s ""
is_blank (some _) = false

-- What the field's message says.
pub data Complaint : Type 0 where
  is_required must_be_string must_be_number must_be_boolean must_be_one_of : Complaint

abbrev pub expect_string : ResponseValue → Option Complaint
expect_string (ResponseValue.text s) = none
expect_string _ = some must_be_string

abbrev pub expect_number : ResponseValue → Option Complaint
expect_number (ResponseValue.number n) = none
expect_number _ = some must_be_number

abbrev pub expect_boolean : ResponseValue → Option Complaint
expect_boolean (ResponseValue.boolean b) = none
expect_boolean _ = some must_be_boolean

-- `field.options && !field.options.includes(value)`
abbrev pub expect_option : Option (List String) → ResponseValue → Option Complaint
expect_option none (ResponseValue.text s) = none
expect_option (some options) (ResponseValue.text s) =
    if any (λ o. str_eq o s) options then none else some must_be_one_of
expect_option _ _ = some must_be_string

-- The `switch` on the field's type.
unfoldable pub check_type :
    CustomFieldDefinition → CustomFieldType → ResponseValue → Option Complaint
check_type field CustomFieldType.text value = expect_string value
check_type field textarea value = expect_string value
check_type field url value = expect_string value
check_type field CustomFieldType.number value = expect_number value
check_type field CustomFieldType.boolean value = expect_boolean value
check_type field select value = expect_option field.options value

abbrev pub check_present : CustomFieldDefinition → Option ResponseValue → Option Complaint
check_present field none = none
check_present field (some value) = check_type field field.type value

-- One round of the loop.
unfoldable pub check_field :
    CustomFieldDefinition → List (String × ResponseValue) → Option Complaint
unfolding response check_type
check_field field responses =
    let value = response field.id responses in
    if field.required && is_blank value
    then some is_required
    else if is_blank value
    then none
    else check_present field value

abbrev pub add_complaint :
    CustomFieldDefinition → Option Complaint → List (String × Complaint) → List (String × Complaint)
add_complaint field none errors = errors
add_complaint field (some complaint) errors = (field.label, complaint) ∷ errors

-- The list of `errors`: each field's label with its complaint, in the order of the fields.
unfoldable pub field_errors :
    List CustomFieldDefinition → List (String × ResponseValue) → List (String × Complaint)
unfolding check_field
field_errors [] responses = []
field_errors (field ∷ fields) responses =
    add_complaint field (check_field field responses) (field_errors fields responses)

abbrev pub is_empty {ℓ} : {A : Type ℓ} → List A → Bool
is_empty [] = true
is_empty (x ∷ xs) = false

-- `if (errors.length > 0) throw`
unfoldable pub validate_custom_responses :
    {S : Type 0} → List CustomFieldDefinition → List (String × ResponseValue) → M S (Unit {0})
unfolding field_errors
validate_custom_responses fields responses =
    require (is_empty (field_errors fields responses)) (bad_request custom_field_validation_failed)
