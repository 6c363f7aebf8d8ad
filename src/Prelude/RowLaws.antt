-- ===== src/Prelude/RowLaws.antt =====
-- Laws of queries and updates on tables.
use mathlib.Core.Path.{subst}
use omni_crm_backend.Prelude.{
  ◌<◌, ℕ, suc, ◌+◌, ◌≤◌, ◌≡◌, refl, sym, ◌==◌, ==_iff, inl, inr, Bool, true, false, Option, none,
  some, List, [], ◌∷◌, ◌++◌, arith, if◌then◌else◌, Bool-cases, first, update, delete, count, All,
}

-- What UPDATE makes of one row.
abbrev pub revise {ℓ} : {A : Type ℓ} → (A → Bool) → (A → A) → A → A
revise q f x = if q x then f x else x

abbrev pub map_option {ℓ κ} : {A : Type ℓ} {B : Type κ} → (A → B) → Option A → Option B
map_option f none = none
map_option f (some a) = some (f a)

abbrev pub or_else {ℓ} : {A : Type ℓ} → Option A → Option A → Option A
or_else none o = o
or_else (some a) o = some a

module _ {ℓ} {A : Type ℓ} where
  -- What a query returns satisfies its condition.
  pub first_sound : (p : A → Bool) (xs : List A) {x : A} → first p xs ≡ some x → p x ≡ true
  unfolding first
  first_sound p [] h = cc
  first_sound p (y ∷ xs) h = elim (Bool-cases (p y)) [
    | inl e ↦ ground (arith, e)
    | inr e ↦ first_sound p xs (rw e at h)
  ]

  pub first-append :
      (p : A → Bool) (xs ys : List A) → first p (xs ++ ys) ≡ or_else (first p xs) (first p ys)
  unfolding first
  first-append p [] ys = refl
  first-append p (x ∷ xs) ys = elim (Bool-cases (p x)) [
    | inl e ↦ rw e
    | inr e ↦ rw e (first-append p xs ys)
  ]

  -- An update that keeps the query's condition on each row commutes with the query.
  pub first-update :
      (p q : A → Bool) (f : A → A)
      → ((x : A) → p (revise q f x) ≡ p x)
      → (xs : List A) → first p (update q f xs) ≡ map_option (revise q f) (first p xs)
  unfolding first update
  first-update p q f keep [] = refl
  first-update p q f keep (x ∷ xs) = elim (Bool-cases (p x)) [
    | inl e ↦ rw (keep x) (rw e)
    | inr e ↦ rw (keep x) (rw e (first-update p q f keep xs))
  ]

  pub first-ext : (p q : A → Bool) → ((x : A) → p x ≡ q x) → (xs : List A) → first p xs ≡ first q xs
  unfolding first
  first-ext p q same [] = refl
  first-ext p q same (x ∷ xs) = elim (Bool-cases (q x)) [
    | inl e ↦ rw (same x) (rw e)
    | inr e ↦ rw (same x) (rw e (first-ext p q same xs))
  ]

  pub All-of_first-none :
      (p : A → Bool) (xs : List A) → first p xs ≡ none → All (λ x. p x ≡ false) xs
  unfolding first
  All-of_first-none p [] h = tt
  All-of_first-none p (x ∷ xs) h = elim (Bool-cases (p x)) [
    | inl e ↦ absurd (cc (rw e at h))
    | inr e ↦ (e, All-of_first-none p xs (rw e at h))
  ]

  pub first-none_of_All :
      (p : A → Bool) (xs : List A) → All (λ x. p x ≡ false) xs → first p xs ≡ none
  unfolding first
  first-none_of_All p [] h = refl
  first-none_of_All p (x ∷ xs) h = rw h.0 (first-none_of_All p xs h.1)

module _ {ℓ κ} {A : Type ℓ} (P : A → Type κ) where
  pub All-first : (p : A → Bool) (xs : List A) {x : A} → All P xs → first p xs ≡ some x → P x
  unfolding first
  All-first p [] h e = absurd (cc)
  All-first p (y ∷ xs) {x} h e = elim (Bool-cases (p y)) [
    | inl t ↦ let same : y ≡ x = cc (t, e) in subst P same h.0
    | inr t ↦ All-first p xs h.1 (rw t at e)
  ]

  pub All-append : (xs ys : List A) → All P xs → All P ys → All P (xs ++ ys)
  All-append [] ys hx hy = hy
  All-append (x ∷ xs) ys hx hy = (hx.0, All-append xs ys hx.1 hy)

  pub All-update :
      (q : A → Bool) (f : A → A)
      → ((x : A) → q x ≡ true → P x → P (f x))
      → (xs : List A) → All P xs
      → All P (update q f xs)
  unfolding update
  All-update q f keep [] h = tt
  All-update q f keep (x ∷ xs) h = elim (Bool-cases (q x)) [
    | inl e ↦ rw e (keep x e h.0, All-update q f keep xs h.1)
    | inr e ↦ rw e (h.0, All-update q f keep xs h.1)
  ]

  -- An update establishes P if it does on the rows it meets and P holds on the others.
  pub All-update_where :
      (q : A → Bool) (f : A → A)
      → ((x : A) → q x ≡ true → P (f x))
      → ((x : A) → q x ≡ false → P x)
      → (xs : List A) → All P (update q f xs)
  unfolding update
  All-update_where q f hit miss [] = tt
  All-update_where q f hit miss (x ∷ xs) = elim (Bool-cases (q x)) [
    | inl e ↦ rw e (hit x e, All-update_where q f hit miss xs)
    | inr e ↦ rw e (miss x e, All-update_where q f hit miss xs)
  ]

  pub All-delete : (q : A → Bool) (xs : List A) → All P xs → All P (delete q xs)
  unfolding delete
  All-delete q [] h = tt
  All-delete q (x ∷ xs) h = elim (Bool-cases (q x)) [
    | inl e ↦ rw e (All-delete q xs h.1)
    | inr e ↦ rw e (h.0, All-delete q xs h.1)
  ]

  pub All-of : ((x : A) → P x) → (xs : List A) → All P xs
  All-of h [] = tt
  All-of h (x ∷ xs) = (h x, All-of h xs)

pub All-map {ℓ κ μ} :
    {A : Type ℓ} (P : A → Type κ) (Q : A → Type μ)
    → ((x : A) → P x → Q x)
    → (xs : List A) → All P xs
    → All Q xs
All-map P Q f [] h = tt
All-map P Q f (x ∷ xs) h = (f x h.0, All-map P Q f xs h.1)

module _ {ℓ} {A : Type ℓ} where
  pub count-append : (p : A → Bool) (xs ys : List A) → count p (xs ++ ys) ≡ count p xs + count p ys
  unfolding count
  count-append p [] ys = omega arith
  count-append p (x ∷ xs) ys = ground (arith, count-append p xs ys)

  -- An update whose result no longer meets the condition never adds to the count.
  pub count-update_le :
      (p q : A → Bool) (f : A → A)
      → ((x : A) → q x ≡ true → p (f x) ≡ false)
      → (xs : List A) → count p (update q f xs) ≤ count p xs
  unfolding count update
  count-update_le p q f kills [] = omega arith
  count-update_le p q f kills (x ∷ xs) = ground (arith, kills x, count-update_le p q f kills xs)

  -- It takes off at least one if the first row that it meets was counted.
  pub count-update_lt :
      (p q : A → Bool) (f : A → A)
      → ((x : A) → q x ≡ true → p (f x) ≡ false)
      → (xs : List A) {r : A} → first q xs ≡ some r
      → p r ≡ true
      → suc (count p (update q f xs)) ≤ count p xs
  unfolding count update first
  count-update_lt p q f kills [] e h = absurd (cc)
  count-update_lt p q f kills (x ∷ xs) {r} e h = elim (Bool-cases (q x)) [
    | inl t ↦
        let same : x ≡ r = cc (t, e) in
        let counted : p x ≡ true = cc in ground (arith, kills x t, count-update_le p q f kills xs)
    | inr t ↦ ground (arith, count-update_lt p q f kills xs {r = r} (rw t at e) h)
  ]

  -- The same where the row that the query for `p` has found is one of those that are updated.
  pub count-update_found :
      (p q : A → Bool) (f : A → A)
      → ((x : A) → q x ≡ true → p (f x) ≡ false)
      → (xs : List A) {r : A} → first p xs ≡ some r
      → q r ≡ true
      → suc (count p (update q f xs)) ≤ count p xs
  unfolding count update first
  count-update_found p q f kills [] e h = absurd (cc)
  count-update_found p q f kills (x ∷ xs) {r} e h = elim (Bool-cases (p x)) [
    | inl t ↦
        let same : x ≡ r = cc (t, e) in
        let hit : q x ≡ true = cc in ground (arith, kills x hit, count-update_le p q f kills xs)
    | inr t ↦ ground (arith, kills x, count-update_found p q f kills xs {r = r} (rw t at e) h)
  ]

  pub count-update_keep :
      (p q : A → Bool) (f : A → A)
      → ((x : A) → p (revise q f x) ≡ p x)
      → (xs : List A) → count p (update q f xs) ≡ count p xs
  unfolding count update
  count-update_keep p q f keep [] = refl
  count-update_keep p q f keep (x ∷ xs) = rw (keep x) (rw (count-update_keep p q f keep xs))

  pub count-zero_of_first : (p : A → Bool) (xs : List A) → first p xs ≡ none → count p xs ≡ 0
  unfolding count first
  count-zero_of_first p [] h = refl
  count-zero_of_first p (x ∷ xs) h = ground (arith, count-zero_of_first p xs)

  pub first-none_of_count : (p : A → Bool) (xs : List A) → count p xs ≡ 0 → first p xs ≡ none
  unfolding count first
  first-none_of_count p [] h = refl
  first-none_of_count p (x ∷ xs) h = ground (arith, first-none_of_count p xs)

  -- The row that a query by key finds is found by its own key.
  pub first_own_key :
      (key : A → ℕ) (k : ℕ) (xs : List A) {r : A}
      → first (λ x. key x == k) xs ≡ some r
      → first (λ x. key x == key r) xs ≡ some r
  first_own_key key k xs {r} h =
      subst (λ n. first (λ x. key x == n) xs ≡ some r)
        (sym ((==_iff (key r) k).0 (first_sound (λ x. key x == k) xs h))) h

  pub count-none_of_All : (p : A → Bool) (xs : List A) → All (λ x. p x ≡ false) xs → count p xs ≡ 0
  unfolding count
  count-none_of_All p [] h = refl
  count-none_of_All p (x ∷ xs) h = rw h.0 (count-none_of_All p xs h.1)

  pub count-pos_of_first :
      (p q : A → Bool) (xs : List A) {r : A} → first q xs ≡ some r → p r ≡ true → 0 < count p xs
  unfolding count first
  count-pos_of_first p q [] e h = absurd (cc)
  count-pos_of_first p q (x ∷ xs) {r} e h = elim (Bool-cases (q x)) [
    | inl t ↦ let same : x ≡ r = cc (t, e) in let counted : p x ≡ true = cc in ground arith
    | inr t ↦ ground (arith, count-pos_of_first p q xs {r = r} (rw t at e) h)
  ]
