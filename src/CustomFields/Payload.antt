-- ===== src/CustomFields/Payload.antt =====
-- When the custom fields of a contact or an opportunity are accepted.
use omni_crm_backend.Prelude.{
  ℕ, ◌≡◌, ◌↔◌, refl, String, Bool, true, false, inl, inr, Option, none, some, List, [], ◌∷◌, arith,
  Outcome, ok, err, is_some, is_none, Bool-cases, Option-cases, if◌then◌else◌, first, select, All,
}
use omni_crm_backend.Prelude.RowLaws.{All-of_first-none, first-none_of_All, All-map}
use omni_crm_backend.CustomFields.{
  Value, FieldDefinition, EntityType, ValidationError, Reason, is_of, has_name, is_entry,
  is_unknown, is_missing, raise_or_return, refuse_unknown, refuse_missing, and_then, value_verdict,
  validate_custom_field_value, validate_by, validate_values, validate_against,
  validate_custom_field_payload,
}
use omni_crm_backend.CustomFields.Values.{Fits, value_iff}

module _ {ℓ} {A : Type ℓ} (p : A → Bool) where
  All-of_select : (xs : List A) → select p xs ≡ [] → All (λ x. p x ≡ false) xs
  unfolding select
  All-of_select [] h = tt
  All-of_select (x ∷ xs) h = elim (Bool-cases (p x)) [
    | inl e ↦ absurd (cc (rw e at h))
    | inr e ↦ (e, All-of_select xs (rw e at h))
  ]

  select_of_All : (xs : List A) → All (λ x. p x ≡ false) xs → select p xs ≡ []
  unfolding select
  select_of_All [] h = refl
  select_of_All (x ∷ xs) h = rw h.0 (select_of_All xs h.1)

module _ (is_iso_date : String → Bool) where
  -- The entry has a definition among these, and its value fits it.
  abbrev pub Placed : List FieldDefinition → String × Value → Type 0
  Placed ds e = (d : FieldDefinition) × (first (has_name e.0) ds ≡ some d) × Fits is_iso_date d e.1

  -- A field that is required has an entry.
  abbrev pub Filled : List (String × Value) → FieldDefinition → Type 0
  Filled values d = d.required ≡ true → is_some (first (is_entry d.name) values) ≡ true

  -- Every entry is placed, and if all are asked for, every required field is filled.
  pub record IsAccepted (ds : List FieldDefinition) (values : List (String × Value))
      (require_all : Bool) : Type 0 where
    pub placed : All (Placed ds) values
    pub filled : require_all ≡ true → All (Filled values) ds

  raised_none : (name : String) (r : Option Reason) → raise_or_return name r ≡ ok tt → r ≡ none
  raised_none name none h = refl
  raised_none name (some r) h = absurd (cc)

  both_ok :
      (a b : Outcome ValidationError (Unit {0})) → and_then a b ≡ ok tt → (a ≡ ok tt) × (b ≡ ok tt)
  unfolding and_then
  both_ok (err e) b h = absurd (cc)
  both_ok (ok tt) b h = (refl, h)

  one_accepted :
      (ds : List FieldDefinition) (e : String × Value) (o : Option FieldDefinition)
      → first (has_name e.0) ds ≡ o
      → is_none o ≡ false
      → validate_by is_iso_date o e.1 ≡ ok tt
      → Placed ds e
  unfolding validate_by validate_custom_field_value
  one_accepted ds e none found known h = absurd (cc)
  one_accepted ds e (some d) found known h = (
    d,
    found,
    (value_iff is_iso_date d e.1).0 (raised_none d.name (value_verdict is_iso_date d e.1) h),
  )

  entries_sound :
      (ds : List FieldDefinition) (values : List (String × Value))
      → All (λ e. is_unknown ds e ≡ false) values
      → validate_values is_iso_date ds values ≡ ok tt
      → All (Placed ds) values
  unfolding validate_values
  entries_sound ds [] known h = tt
  entries_sound ds ((name, v) ∷ values) known h =
      let (h0, h1) =
        both_ok (validate_by is_iso_date (first (has_name name) ds) v)
          (validate_values is_iso_date ds values) h in
      (
        one_accepted ds (name, v) (first (has_name name) ds) refl known.0 h0,
        entries_sound ds values known.1 h1,
      )

  entries_complete :
      (ds : List FieldDefinition) (values : List (String × Value))
      → All (Placed ds) values
      → validate_values is_iso_date ds values ≡ ok tt
  unfolding validate_values validate_by validate_custom_field_value and_then
  entries_complete ds [] h = refl
  entries_complete ds ((name, v) ∷ values) ((d, found, fits), rest) =
      rw found (rw ((value_iff is_iso_date d v).1 fits) (entries_complete ds values rest))

  known_of :
      (ds : List FieldDefinition) (e : String × Value) → Placed ds e → is_unknown ds e ≡ false
  known_of ds e (d, found, fits) = rw found

  no_gap :
      (values : List (String × Value)) (d : FieldDefinition)
      → is_missing values d ≡ false
      → Filled values d
  no_gap values d h r = elim (Option-cases (first (is_entry d.name) values)) [
    | inl e ↦ absurd (ground (arith, e))
    | inr (x, e) ↦ rw e
  ]

  gap_none :
      (values : List (String × Value)) (d : FieldDefinition)
      → Filled values d
      → is_missing values d ≡ false
  gap_none values d h = elim (Bool-cases d.required) [
    | inr e ↦ rw e
    | inl e ↦ elim (Option-cases (first (is_entry d.name) values)) [
      | inl n ↦ absurd (ground (arith, h e, n))
      | inr (x, s) ↦ rw (e, s)
    ]
  ]

  none_unknown :
      (us : List (String × Value)) (rest : Outcome ValidationError (Unit {0}))
      → refuse_unknown us rest ≡ ok tt
      → (us ≡ []) × (rest ≡ ok tt)
  unfolding refuse_unknown
  none_unknown [] rest h = (refl, h)
  none_unknown (u ∷ us) rest h = absurd (cc)

  none_missing :
      (o : Option FieldDefinition) (rest : Outcome ValidationError (Unit {0}))
      → refuse_missing o rest ≡ ok tt
      → (o ≡ none) × (rest ≡ ok tt)
  unfolding refuse_missing
  none_missing none rest h = (refl, h)
  none_missing (some d) rest h = absurd (cc)

  gaps_sound :
      (ds : List FieldDefinition) (values : List (String × Value)) (require_all : Bool)
      → (if require_all then first (is_missing values) ds else none) ≡ none
      → require_all ≡ true
      → All (Filled values) ds
  gaps_sound ds values require_all h all =
      All-map (λ d. is_missing values d ≡ false) (Filled values) (λ d m. no_gap values d m) ds
        (All-of_first-none (is_missing values) ds (rw all at h))

  gaps_complete :
      (ds : List FieldDefinition) (values : List (String × Value)) (require_all : Bool)
      → (require_all ≡ true → All (Filled values) ds)
      → (if require_all then first (is_missing values) ds else none) ≡ none
  gaps_complete ds values true h = first-none_of_All (is_missing values) ds (
      All-map (Filled values) (λ d. is_missing values d ≡ false) (λ d f. gap_none values d f) ds
        (h refl))
  gaps_complete ds values false h = refl

  against_sound :
      (ds : List FieldDefinition) (values : List (String × Value)) (require_all : Bool)
      → validate_against is_iso_date ds values require_all ≡ ok tt
      → IsAccepted ds values require_all
  unfolding validate_against
  against_sound ds values require_all h =
      let (u, h1) =
        none_unknown (select (is_unknown ds) values)
          (refuse_missing (if require_all then first (is_missing values) ds else none)
            (validate_values is_iso_date ds values))
          h in
      let (m, h2) =
        none_missing (if require_all then first (is_missing values) ds else none)
          (validate_values is_iso_date ds values) h1 in
      record {
        placed = entries_sound ds values (All-of_select (is_unknown ds) values u) h2;
        filled = gaps_sound ds values require_all m;
      }

  against_complete :
      (ds : List FieldDefinition) (values : List (String × Value)) (require_all : Bool)
      → IsAccepted ds values require_all
      → validate_against is_iso_date ds values require_all ≡ ok tt
  unfolding validate_against refuse_unknown refuse_missing
  against_complete ds values require_all a =
      rw
        (select_of_All (is_unknown ds) values (
          All-map (Placed ds) (λ e. is_unknown ds e ≡ false) (λ e p. known_of ds e p) values
            a.placed))
        (rw (gaps_complete ds values require_all a.filled) (entries_complete ds values a.placed))

  -- The custom fields of a contact or an opportunity are accepted exactly when each of them has a
  -- definition of its tenant and kind of entity whose type and options it fits, and, where all are
  -- asked for, every required field is among them.
  pub payload_iff :
      (tenant_id : ℕ) (entity_type : EntityType) (values : List (String × Value))
      (require_all : Bool) (definitions : List FieldDefinition)
      → (validate_custom_field_payload is_iso_date tenant_id entity_type values require_all
            definitions
          ≡ ok tt)
        ↔ IsAccepted (select (is_of tenant_id entity_type) definitions) values require_all
  unfolding validate_custom_field_payload
  payload_iff tenant_id entity_type values require_all definitions =
      let ds = select (is_of tenant_id entity_type) definitions in
      (against_sound ds values require_all, against_complete ds values require_all)
