-- ===== src/CustomFields.antt =====
-- app/services/custom_fields.py and the table CustomFieldDefinition of app/models/crm.py: the fields that a tenant
-- adds to its contacts and opportunities. `is_iso_date` is the standard library's
-- date.fromisoformat, true where it does not raise. A number stands for itself: none is inspected.
pub mod Values
pub mod Payload
mod Tests
use Prim.Native.Char.{code}
use package.text.Mathlib.Text.{◌==◌ as str_eq}
use omni_crm_backend.Prelude.{
  ℕ, String, Bool, true, false, not, ◌&&◌, ◌||◌, Option, none, some, List, [], ◌∷◌, Outcome, ok,
  err, ltb, ◌==◌, is_some, is_none, if◌then◌else◌, first, select as rows_where,
}

-- JSON values, as Python reads them.
mutual
  pub data Value : Type 0 where
    null : Value
    text : String → Value
    number : ℕ → Value
    boolean : Bool → Value
    list : Items → Value
    object : Value

  pub data Items : Type 0 where
    nil : Items
    cons : Value → Items → Items

pub data FieldType : Type 0 where
  text number boolean date select multiselect unsupported : FieldType

pub data EntityType : Type 0 where
  contact opportunity : EntityType

pub record FieldDefinition : Type 0 where
  pub tenant_id : ℕ
  pub entity_type : EntityType
  pub name : String
  pub field_type : FieldType
  pub options : Value
  pub required : Bool

pub data Reason : Type 0 where
  required invalid_iso_date select_options_not_configured option_not_allowed : Reason
  options_not_allowed_or_duplicated unsupported_field_type unknown_field : Reason
  expected : FieldType → Reason

pub record ValidationError : Type 0 where
  pub field_name : String
  pub reason : Reason

-- The texts of a list in which all items are texts.
abbrev pub text_then : Value → Option (List String) → Option (List String)
text_then (Value.text s) (some ss) = some (s ∷ ss)
text_then _ _ = none

abbrev pub texts_of : Items → Option (List String)
texts_of nil = some []
texts_of (cons v vs) = text_then v (texts_of vs)

-- `_allowed_options`, none where it raises
abbrev pub allowed_options : Value → Option (List String)
allowed_options (list (cons v vs)) = texts_of (cons v vs)
allowed_options _ = none

abbrev pub contains : List String → String → Bool
contains [] s = false
contains (x ∷ xs) s = str_eq x s || contains xs s

abbrev pub all_in : List String → List String → Bool
all_in allowed [] = true
all_in allowed (s ∷ ss) = contains allowed s && all_in allowed ss

-- len(value) == len(set(value))
abbrev pub no_repeats : List String → Bool
no_repeats [] = true
no_repeats (s ∷ ss) = not (contains ss s) && no_repeats ss

abbrev pub verdict : Bool → Reason → Option Reason
verdict true r = none
verdict false r = some r

pub select_verdict : Option (List String) → String → Option Reason
select_verdict none s = some select_options_not_configured
select_verdict (some allowed) s = verdict (contains allowed s) option_not_allowed

pub items_verdict : List String → Option (List String) → Option Reason
items_verdict allowed none = some options_not_allowed_or_duplicated
items_verdict allowed (some ss) =
    verdict (all_in allowed ss && no_repeats ss) options_not_allowed_or_duplicated

pub multiselect_verdict : Option (List String) → Value → Option Reason
unfolding items_verdict
multiselect_verdict none v = some select_options_not_configured
multiselect_verdict (some allowed) (list vs) = items_verdict allowed (texts_of vs)
multiselect_verdict (some allowed) _ = some options_not_allowed_or_duplicated

abbrev pub raise_or_return : String → Option Reason → Outcome ValidationError (Unit {0})
raise_or_return name none = ok tt
raise_or_return name (some r) = err (record { field_name = name; reason = r })

abbrev pub same_entity : EntityType → EntityType → Bool
same_entity EntityType.contact EntityType.contact = true
same_entity EntityType.opportunity EntityType.opportunity = true
same_entity _ _ = false

abbrev pub is_of : ℕ → EntityType → FieldDefinition → Bool
is_of tenant_id entity_type d = d.tenant_id == tenant_id && same_entity d.entity_type entity_type

abbrev pub has_name : String → FieldDefinition → Bool
has_name name d = str_eq d.name name

abbrev pub is_entry : String → String × Value → Bool
is_entry name e = str_eq e.0 name

abbrev pub is_unknown : List FieldDefinition → String × Value → Bool
is_unknown ds e = is_none (first (has_name e.0) ds)

-- The order of Python's texts, by code points, for sorted(unknown)[0].
abbrev pub codes : String → List ℕ
codes String.[] = []
codes (String.◌∷◌ c s) = code c ∷ codes s

abbrev pub is_before : List ℕ → List ℕ → Bool
is_before [] [] = false
is_before [] (d ∷ ds) = true
is_before (c ∷ cs) [] = false
is_before (c ∷ cs) (d ∷ ds) = ltb c d || (c == d && is_before cs ds)

pub least : String → List (String × Value) → String
least name [] = name
least name (e ∷ es) = least (if is_before (codes e.0) (codes name) then e.0 else name) es

pub refuse_unknown :
    List (String × Value) → Outcome ValidationError (Unit {0}) → Outcome ValidationError (Unit {0})
unfolding least
refuse_unknown [] rest = rest
refuse_unknown (e ∷ es) rest = raise_or_return (least e.0 es) (some unknown_field)

abbrev pub is_missing : List (String × Value) → FieldDefinition → Bool
is_missing values d = d.required && is_none (first (is_entry d.name) values)

pub refuse_missing :
    Option FieldDefinition → Outcome ValidationError (Unit {0}) → Outcome ValidationError (Unit {0})
refuse_missing none rest = rest
refuse_missing (some d) rest = raise_or_return d.name (some Reason.required)

pub and_then :
    Outcome ValidationError (Unit {0})
    → Outcome ValidationError (Unit {0})
    → Outcome ValidationError (Unit {0})
and_then (err e) rest = err e
and_then (ok u) rest = rest

module _ (is_iso_date : String → Bool) where
  -- The branches on the type of the field, for a value that is not None.
  pub type_verdict : FieldType → Value → Value → Option Reason
  unfolding select_verdict multiselect_verdict
  type_verdict FieldType.text options (Value.text s) = none
  type_verdict FieldType.number options (Value.number n) = none
  type_verdict FieldType.boolean options (Value.boolean b) = none
  type_verdict FieldType.date options (Value.text s) = verdict (is_iso_date s) invalid_iso_date
  type_verdict FieldType.select options (Value.text s) = select_verdict (allowed_options options) s
  type_verdict FieldType.select options _ = some option_not_allowed
  type_verdict FieldType.multiselect options v = multiselect_verdict (allowed_options options) v
  type_verdict FieldType.unsupported options _ = some unsupported_field_type
  type_verdict t options _ = some (expected t)

  pub value_verdict : FieldDefinition → Value → Option Reason
  unfolding type_verdict
  value_verdict d null = if d.required then some Reason.required else none
  value_verdict d v = type_verdict d.field_type d.options v

  unfoldable pub validate_custom_field_value :
      FieldDefinition → Value → Outcome ValidationError (Unit {0})
  unfolding value_verdict
  validate_custom_field_value d v = raise_or_return d.name (value_verdict d v)

  -- by_name[name]; every name is known by now
  pub validate_by : Option FieldDefinition → Value → Outcome ValidationError (Unit {0})
  validate_by none v = ok tt
  validate_by (some d) v = validate_custom_field_value d v

  pub validate_values :
      List FieldDefinition → List (String × Value) → Outcome ValidationError (Unit {0})
  unfolding validate_by and_then
  validate_values ds [] = ok tt
  validate_values ds ((name, v) ∷ values) =
      and_then (validate_by (first (has_name name) ds) v) (validate_values ds values)

  pub validate_against :
      List FieldDefinition → List (String × Value) → Bool → Outcome ValidationError (Unit {0})
  unfolding refuse_unknown refuse_missing validate_values
  validate_against ds values require_all = refuse_unknown (rows_where (is_unknown ds) values) (
      refuse_missing (if require_all then first (is_missing values) ds else none)
        (validate_values ds values))

  unfoldable pub validate_custom_field_payload :
      ℕ
      → EntityType
      → List (String × Value)
      → Bool
      → List FieldDefinition
      → Outcome ValidationError (Unit {0})
  unfolding validate_against
  validate_custom_field_payload tenant_id entity_type values require_all definitions =
      validate_against (rows_where (is_of tenant_id entity_type) definitions) values require_all

-- The rows of the contacts or of the opportunities that hold custom fields.
pub record FieldHolder : Type 0 where
  pub tenant_id : ℕ
  pub custom_fields : List (String × Value)

pub record Holders : Type 0 where
  pub contacts : List FieldHolder
  pub opportunities : List FieldHolder

abbrev pub holders_of : EntityType → Holders → List FieldHolder
holders_of EntityType.contact h = h.contacts
holders_of EntityType.opportunity h = h.opportunities

abbrev pub has_value : FieldDefinition → FieldHolder → Bool
has_value d r = r.tenant_id == d.tenant_id && is_some (first (is_entry d.name) r.custom_fields)

unfoldable pub custom_field_has_values : FieldDefinition → Holders → Bool
custom_field_has_values d h = is_some (first (has_value d) (holders_of d.entity_type h))

abbrev pub same_type : FieldType → FieldType → Bool
same_type FieldType.text FieldType.text = true
same_type FieldType.number FieldType.number = true
same_type FieldType.boolean FieldType.boolean = true
same_type FieldType.date FieldType.date = true
same_type FieldType.select FieldType.select = true
same_type FieldType.multiselect FieldType.multiselect = true
same_type FieldType.unsupported FieldType.unsupported = true
same_type _ _ = false

-- The definition as it is afterwards, none where ExplicitValueMigrationRequired is raised.
unfoldable pub change_custom_field_type :
    FieldDefinition → FieldType → Holders → Option FieldDefinition
change_custom_field_type d new_type h =
    if same_type new_type d.field_type
    then some d
    else if custom_field_has_values d h
    then none
    else some (record d { field_type = new_type; options = null })
