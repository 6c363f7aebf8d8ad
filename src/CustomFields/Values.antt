-- ===== src/CustomFields/Values.antt =====
-- When a value is accepted for a field.
use package.text.Mathlib.TextEquality.{eq_iff}
use package.text.Mathlib.Text.{◌==◌ as str_eq}
use omni_crm_backend.Prelude.{
  ◌≡◌, ◌⊎◌, ◌↔◌, refl, String, Bool, true, false, ◌&&◌, inl, inr, Option, none, some, List, [], ◌∷◌,
  arith, Bool-cases, All,
}
use omni_crm_backend.CustomFields.{
  Value, Items, FieldType, FieldDefinition, null, list, texts_of, allowed_options, contains, all_in,
  no_repeats, select_verdict, items_verdict, multiselect_verdict, type_verdict, value_verdict,
}

-- The text is one of the list.
abbrev pub Elem : String → List String → Type 0
Elem s [] = ⊥
Elem s (x ∷ xs) = (x ≡ s) ⊎ Elem s xs

abbrev pub IsDistinct : List String → Type 0
IsDistinct [] = Unit
IsDistinct (s ∷ ss) = ¬ Elem s ss × IsDistinct ss

contains-Elem : (xs : List String) (s : String) → contains xs s ≡ true → Elem s xs
contains-Elem [] s h = cc
contains-Elem (x ∷ xs) s h = elim (Bool-cases (str_eq x s)) [
  | inl e ↦ inl ((eq_iff x s).0 e)
  | inr e ↦ inr (contains-Elem xs s (rw e at h))
]

Elem-contains : (xs : List String) (s : String) → Elem s xs → contains xs s ≡ true
Elem-contains [] s h = absurd h
Elem-contains (x ∷ xs) s (inl e) = rw ((eq_iff x s).1 e)
Elem-contains (x ∷ xs) s (inr e) = ground (arith, Elem-contains xs s e)

all_in-Elem : (allowed ss : List String) → all_in allowed ss ≡ true → All (λ s. Elem s allowed) ss
all_in-Elem allowed [] h = tt
all_in-Elem allowed (s ∷ ss) h =
    (contains-Elem allowed s (ground arith), all_in-Elem allowed ss (ground arith))

Elem-all_in : (allowed ss : List String) → All (λ s. Elem s allowed) ss → all_in allowed ss ≡ true
Elem-all_in allowed [] h = refl
Elem-all_in allowed (s ∷ ss) h = rw (Elem-contains allowed s h.0) (Elem-all_in allowed ss h.1)

no_repeats-IsDistinct : (ss : List String) → no_repeats ss ≡ true → IsDistinct ss
no_repeats-IsDistinct [] h = tt
no_repeats-IsDistinct (s ∷ ss) h =
    ((λ e. absurd (ground (arith, Elem-contains ss s e))), no_repeats-IsDistinct ss (ground arith))

IsDistinct-no_repeats : (ss : List String) → IsDistinct ss → no_repeats ss ≡ true
IsDistinct-no_repeats [] h = refl
IsDistinct-no_repeats (s ∷ ss) h = elim (Bool-cases (contains ss s)) [
  | inl e ↦ absurd (h.0 (contains-Elem ss s e))
  | inr e ↦ rw e (IsDistinct-no_repeats ss h.1)
]

-- The text is one of the options.
abbrev pub IsOption : Value → String → Type 0
IsOption options s =
    (allowed : List String) × (allowed_options options ≡ some allowed) × Elem s allowed

-- The items are texts among the options, none twice.
abbrev pub AreOptions : Value → Items → Type 0
AreOptions options vs =
    (allowed : List String) × (allowed_options options ≡ some allowed)
    × (ss : List String) × (texts_of vs ≡ some ss)
    × All (λ s. Elem s allowed) ss
    × IsDistinct ss

module _ (is_iso_date : String → Bool) where
  -- What a field of a type takes.
  abbrev pub FitsType : FieldType → Value → Value → Type 0
  FitsType FieldType.text options (Value.text s) = Unit
  FitsType FieldType.number options (Value.number n) = Unit
  FitsType FieldType.boolean options (Value.boolean b) = Unit
  FitsType FieldType.date options (Value.text s) = is_iso_date s ≡ true
  FitsType FieldType.select options (Value.text s) = IsOption options s
  FitsType FieldType.multiselect options (list vs) = AreOptions options vs
  FitsType t options v = ⊥

  -- None fits an optional field, any other value its type.
  abbrev pub Fits : FieldDefinition → Value → Type 0
  Fits d null = d.required ≡ false
  Fits d v = FitsType d.field_type d.options v

  select_sound :
      (o : Option (List String)) (s : String)
      → select_verdict o s ≡ none
      → (allowed : List String) × (o ≡ some allowed) × Elem s allowed
  unfolding select_verdict
  select_sound none s h = absurd (cc)
  select_sound (some allowed) s h = elim (Bool-cases (contains allowed s)) [
    | inl e ↦ (allowed, refl, contains-Elem allowed s e)
    | inr e ↦ absurd (cc (rw e at h))
  ]

  items_sound :
      (allowed : List String) (o : Option (List String))
      → items_verdict allowed o ≡ none
      → (ss : List String) × (o ≡ some ss) × All (λ s. Elem s allowed) ss × IsDistinct ss
  unfolding items_verdict
  items_sound allowed none h = absurd (cc)
  items_sound allowed (some ss) h = elim (Bool-cases (all_in allowed ss && no_repeats ss)) [
    | inl e ↦
        (ss, refl, all_in-Elem allowed ss (ground arith), no_repeats-IsDistinct ss (ground arith))
    | inr e ↦ absurd (cc (rw e at h))
  ]

  multiselect_sound :
      (options : Value) (o : Option (List String)) (v : Value)
      → allowed_options options ≡ o
      → multiselect_verdict o v ≡ none
      → FitsType FieldType.multiselect options v
  unfolding multiselect_verdict
  multiselect_sound options none v e h = absurd (cc)
  multiselect_sound options (some allowed) (list vs) e h =
      let (ss, texts, among, distinct) = items_sound allowed (texts_of vs) h in
      (allowed, e, ss, texts, among, distinct)
  multiselect_sound options (some allowed) v e h = absurd (cc)

  type_sound :
      (t : FieldType) (options v : Value)
      → type_verdict is_iso_date t options v ≡ none
      → FitsType t options v
  unfolding type_verdict
  type_sound FieldType.text options (Value.text s) h = tt
  type_sound FieldType.number options (Value.number n) h = tt
  type_sound FieldType.boolean options (Value.boolean b) h = tt
  type_sound FieldType.date options (Value.text s) h = ground arith
  type_sound FieldType.select options (Value.text s) h = select_sound (allowed_options options) s h
  type_sound FieldType.multiselect options v h =
      multiselect_sound options (allowed_options options) v refl h
  type_sound t options v h = absurd (cc)

  multiselect_complete :
      (options v : Value)
      → FitsType FieldType.multiselect options v
      → multiselect_verdict (allowed_options options) v ≡ none
  unfolding multiselect_verdict items_verdict
  multiselect_complete options (list vs) (allowed, e, ss, texts, among, distinct) =
      rw e (rw texts (rw (Elem-all_in allowed ss among) (rw (IsDistinct-no_repeats ss distinct))))
  multiselect_complete options v h = absurd h

  type_complete :
      (t : FieldType) (options v : Value)
      → FitsType t options v
      → type_verdict is_iso_date t options v ≡ none
  unfolding type_verdict select_verdict
  type_complete FieldType.text options (Value.text s) h = refl
  type_complete FieldType.number options (Value.number n) h = refl
  type_complete FieldType.boolean options (Value.boolean b) h = refl
  type_complete FieldType.date options (Value.text s) h = rw h
  type_complete FieldType.select options (Value.text s) (allowed, e, among) =
      rw e (rw (Elem-contains allowed s among))
  type_complete FieldType.multiselect options (list vs) h = multiselect_complete options (list vs) h
  type_complete t options v h = absurd h

  -- A value is accepted for a field exactly when it fits the field's definition.
  pub value_iff :
      (d : FieldDefinition) (v : Value) → (value_verdict is_iso_date d v ≡ none) ↔ Fits d v
  unfolding value_verdict
  value_iff d null = elim (Bool-cases d.required) [
    | inl e ↦ ((λ h. absurd (ground (arith, e, h))), (λ h. absurd (cc)))
    | inr e ↦ ((λ h. e), (λ h. rw e))
  ]
  value_iff d v = (type_sound d.field_type d.options v, type_complete d.field_type d.options v)
