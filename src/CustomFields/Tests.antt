-- ===== src/CustomFields/Tests.antt =====
-- A required choice among two options.
use omni_crm_backend.Prelude.{
  ◌≡◌, ◌↔◌, refl, String, Bool, true, false, [], ◌∷◌, ok, err, first, select,
}
use omni_crm_backend.CustomFields.{
  is_of, validate_custom_field_value, Value, FieldType, EntityType, FieldDefinition, list, nil,
  cons, validate_custom_field_payload, option_not_allowed, unknown_field,
}
use omni_crm_backend.CustomFields.Payload.{IsAccepted, payload_iff}

abbrev size : FieldDefinition
size = record {
  tenant_id = 9;
  entity_type = EntityType.contact;
  name = "size";
  field_type = FieldType.select;
  options = list (cons (Value.text "small") (cons (Value.text "large") nil));
  required = true;
}

abbrev never : String → Bool
never s = false

large :
    validate_custom_field_payload never 9 EntityType.contact
      (("size", Value.text "large") ∷ [])
      true
      (size ∷ [])
    ≡ ok tt
unfolding validate_custom_field_payload validate_custom_field_value first select
large = refl

medium :
    validate_custom_field_payload never 9 EntityType.contact
      (("size", Value.text "medium") ∷ [])
      true
      (size ∷ [])
    ≡ err (record { field_name = "size"; reason = option_not_allowed })
unfolding validate_custom_field_payload validate_custom_field_value first select
medium = refl

-- Of two unknown names the first in the order of texts is reported.
unknown :
    validate_custom_field_payload never 9 EntityType.contact
      (("zone", Value.text "x") ∷ ("area", Value.text "x") ∷ [])
      false
      (size ∷ [])
    ≡ err (record { field_name = "area"; reason = unknown_field })
unfolding validate_custom_field_payload validate_custom_field_value first select
unknown = refl

payload_iff_example :
    (validate_custom_field_payload never 9 EntityType.contact
        (("size", Value.text "large") ∷ [])
        true
        (size ∷ [])
      ≡ ok tt)
    ↔ IsAccepted never
        (select (is_of 9 EntityType.contact) (size ∷ []))
        (("size", Value.text "large") ∷ [])
        true
payload_iff_example =
    payload_iff never 9 EntityType.contact (("size", Value.text "large") ∷ []) true (size ∷ [])
