-- ===== src/Prelude/Keys.antt =====
-- Tables with a primary key.
use mathlib.Core.Path.{subst}
use omni_crm_backend.Prelude.{
  ap, ℕ, ◌≡◌, ◌≢◌, sym, Bool, true, false, inl, inr, some, List, [], ◌∷◌, arith, ◌==◌, ==_iff,
  Bool-cases, first, update, insert, All,
}
use omni_crm_backend.Prelude.RowLaws.{All-first, All-append, All-update}

module _ {ℓ} {A : Type ℓ} (key : A → ℕ) where
  -- No two rows have one key.
  abbrev pub IsKeyed : List A → Type 0
  IsKeyed [] = Unit
  IsKeyed (x ∷ xs) = All (λ y. key y ≢ key x) xs × IsKeyed xs

  pub IsKeyed-update :
      (q : A → Bool) (f : A → A)
      → ((x : A) → key (f x) ≡ key x)
      → (xs : List A) → IsKeyed xs
      → IsKeyed (update q f xs)
  unfolding update
  IsKeyed-update q f keep [] h = tt
  IsKeyed-update q f keep (x ∷ xs) h = elim (Bool-cases (q x)) [
    | inl e ↦ rw e (
      All-update (λ y. key y ≢ key (f x)) q f (λ y _ ne. rw (keep y) ne) xs (rw (keep x) h.0),
      IsKeyed-update q f keep xs h.1,
    )
    | inr e ↦ rw e (
      All-update (λ y. key y ≢ key x) q f (λ y _ ne. rw (keep y) ne) xs h.0,
      IsKeyed-update q f keep xs h.1,
    )
  ]

  pub IsKeyed-insert :
      (x : A) (xs : List A) → All (λ y. key y ≢ key x) xs → IsKeyed xs → IsKeyed (insert x xs)
  IsKeyed-insert x [] new h = (tt, tt)
  IsKeyed-insert x (y ∷ ys) new h = (
    All-append (λ z. key z ≢ key y) ys (x ∷ []) h.0 ((λ e. new.0 (sym e)), tt),
    IsKeyed-insert x ys new.1 h.1,
  )

  module _ {κ} (P : A → Type κ) where
    All-update_miss :
        (k : ℕ) (f : A → A) (xs : List A)
        → All (λ y. key y ≢ k) xs
        → All P xs
        → All P (update (λ y. key y == k) f xs)
    unfolding update
    All-update_miss k f [] miss h = tt
    All-update_miss k f (x ∷ xs) miss h =
        let other : (key x == k) ≡ false = ground (arith, miss.0) in
        rw other (h.0, All-update_miss k f xs miss.1 h.1)

    -- A write to the row that a query has found touches that row alone.
    pub All-update_key :
        (p : A → Bool) (f : A → A) (xs : List A) {e : A}
        → IsKeyed xs
        → first p xs ≡ some e
        → P (f e)
        → All P xs
        → All P (update (λ y. key y == key e) f xs)
    unfolding first update
    All-update_key p f [] keyed found new h = tt
    All-update_key p f (x ∷ xs) {e} keyed found new h = elim (Bool-cases (p x)) [
      | inl t ↦
          let same : e ≡ x = cc (t, found) in
          let hit : (key x == key e) ≡ true = (==_iff (key x) (key e)).1 (cc (ap key same)) in
          rw hit (
            subst (λ y. P (f y)) same new,
            All-update_miss (key e) f xs
                (subst (λ y. All (λ z. key z ≢ key y) xs) (sym same) keyed.0) h.1,
          )
      | inr t ↦
          let later : first p xs ≡ some e = rw t at found in
          let ne : key e ≢ key x = All-first (λ y. key y ≢ key x) p xs keyed.0 later in
          let miss : (key x == key e) ≡ false = ground (arith, ne) in
          rw miss (h.0, All-update_key p f xs keyed.1 later new h.1)
    ]
