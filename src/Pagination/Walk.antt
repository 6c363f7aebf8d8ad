-- ===== src/Pagination/Walk.antt =====
-- A client that follows the cursors reads every row once.
use mathlib.Core.Path.{subst}
use mathlib.Core.List.{append_assoc}
use omni_crm_backend.Prelude.{
  ℕ, zero, suc, ◌+◌, ◌≤◌, ◌<◌, ◌≡◌, refl, sym, ap, ◌∙◌, inl, inr, Bool, true, false, ◌&&◌, Option,
  none, some, List, [], ◌∷◌, ◌++◌, arith, Outcome, ok, err, ltb, leb, Bool-cases, select, take,
  length, All,
}
use omni_crm_backend.Prelude.RowLaws.{map_option}
use omni_crm_backend.Pagination.{
  CursorCodec, PageError, CursorPage, last_of, is_beyond, selected, fetched, paginate,
}

abbrev pub drop {ℓ} : {A : Type ℓ} → ℕ → List A → List A
drop zero xs = xs
drop (suc n) [] = []
drop (suc n) (x ∷ xs) = drop n xs

module _ {ℓ} {A : Type ℓ} where
  take-drop : (n : ℕ) (xs : List A) → take n xs ++ drop n xs ≡ xs
  take-drop zero xs = refl
  take-drop (suc n) [] = refl
  take-drop (suc n) (x ∷ xs) = rw (take-drop n xs)

  take_more : (n : ℕ) (xs : List A) → take n (take (suc n) xs) ≡ take n xs
  take_more zero xs = refl
  take_more (suc n) [] = refl
  take_more (suc n) (x ∷ xs) = rw (take_more n xs)

  -- Whether one row more was fetched says whether rows are left.
  has_more : (n : ℕ) (xs : List A) → ltb n (length (take (suc n) xs)) ≡ ltb n (length xs)
  has_more zero [] = refl
  has_more zero (x ∷ xs) = ground arith
  has_more (suc n) [] = refl
  has_more (suc n) (x ∷ xs) = ground (arith, has_more n xs)

  length-drop : (n : ℕ) (xs : List A) → n ≤ length xs → length (drop n xs) + n ≡ length xs
  length-drop zero xs h = omega arith
  length-drop (suc n) [] h = absurd (omega arith)
  length-drop (suc n) (x ∷ xs) h = omega (arith, length-drop n xs (omega arith))

  take_all : (n : ℕ) (xs : List A) → length xs ≤ n → take n xs ≡ xs
  take_all zero [] h = refl
  take_all zero (x ∷ xs) h = absurd (omega arith)
  take_all (suc n) [] h = refl
  take_all (suc n) (x ∷ xs) h = rw (take_all n xs (omega arith))

  -- A list that is not empty, by its last element.
  record Ended (xs : List A) : Type ℓ where
    pub before : List A
    pub final : A
    pub parts : xs ≡ before ++ final ∷ []
    pub is_last : last_of xs ≡ some final

  ended : (x : A) (xs : List A) → Ended (x ∷ xs)
  ended x [] = record { before = []; final = x; parts = refl; is_last = refl }
  ended x (y ∷ ys) =
      let e = ended y ys in
      record {
        before = x ∷ e.before;
        final = e.final;
        parts = ap (λ l. x ∷ l) e.parts;
        is_last = e.is_last;
      }

  taken_some : (n : ℕ) (xs : List A) → 1 ≤ n → 1 ≤ length xs → Ended (take n xs)
  taken_some zero xs h k = absurd (omega arith)
  taken_some (suc n) [] h k = absurd (omega arith)
  taken_some (suc n) (x ∷ xs) h k = ended x (take n xs)

module _ (codec : CursorCodec) {A : Type 0} (occurred_at : A → ℕ) (id : A → ℕ) where
  abbrev pub Beyond : A → A → Type 0
  Beyond x y = is_beyond codec occurred_at id (occurred_at x) (id x) y ≡ true

  -- The rows stand in the order of the query, no two with one instant and one identifier.
  abbrev pub IsAscending : List A → Type 0
  IsAscending [] = Unit
  IsAscending (x ∷ xs) = All (Beyond x) xs × IsAscending xs

  -- What the next page is made of.
  abbrev glue : List A → Option codec.Text → (codec.Text → Option (List A)) → Option (List A)
  glue items none next = some items
  glue items (some c) next = map_option (λ rest. items ++ rest) (next c)

  abbrev follow :
      Outcome PageError (CursorPage A codec.Text) → (codec.Text → Option (List A)) → Option (List A)
  follow (err e) next = none
  follow (ok p) next = glue p.items p.next_cursor next

  -- A client: it asks for pages until one has no cursor. `none` means that it was refused, or
  -- that it gave up after so many pages.
  pub walk : ℕ → ℕ → List A → Option codec.Text → Option (List A)
  walk zero limit rows cursor = none
  walk (suc pages) limit rows cursor =
      follow (paginate codec occurred_at id rows cursor limit) (λ c. walk pages limit rows (some c))

  All-right : (P : A → Type 0) (xs ys : List A) → All P (xs ++ ys) → All P ys
  All-right P [] ys h = h
  All-right P (x ∷ xs) ys h = All-right P xs ys h.1

  IsAscending-right : (xs ys : List A) → IsAscending (xs ++ ys) → IsAscending ys
  IsAscending-right [] ys h = h
  IsAscending-right (x ∷ xs) ys h = IsAscending-right xs ys h.1

  select_all : (p : A → Bool) (xs : List A) → All (λ x. p x ≡ true) xs → select p xs ≡ xs
  unfolding select
  select_all p [] h = refl
  select_all p (x ∷ xs) h = rw h.0 (rw (select_all p xs h.1))

  not_behind :
      (x y : A) → Beyond x y → is_beyond codec occurred_at id (occurred_at y) (id y) x ≡ false
  not_behind x y h = ground arith

  -- The cursor of a row selects the rows behind it.
  select-beyond :
      (pre : List A) (y : A) (rest : List A)
      → IsAscending (pre ++ y ∷ rest)
      → select (is_beyond codec occurred_at id (occurred_at y) (id y)) (pre ++ y ∷ rest) ≡ rest
  unfolding select
  select-beyond [] y rest h =
      let miss : is_beyond codec occurred_at id (occurred_at y) (id y) y ≡ false = ground arith in
      rw miss (select_all (is_beyond codec occurred_at id (occurred_at y) (id y)) rest h.0)
  select-beyond (x ∷ pre) y rest h =
      let later : Beyond x y = (All-right (Beyond x) pre (y ∷ rest) h.0).0 in
      rw (not_behind x y later) (select-beyond pre y rest h.1)

  selected_after :
      (pre : List A) (y : A) (rest : List A)
      → IsAscending (pre ++ y ∷ rest)
      → selected codec occurred_at id (pre ++ y ∷ rest) (some (codec.encode (occurred_at y) (id y)))
        ≡ ok rest
  unfolding selected
  selected_after pre y rest h =
      rw (codec.encode_not_empty (occurred_at y) (id y))
        (rw (codec.decode-encode (occurred_at y) (id y)) (ap ok (select-beyond pre y rest h)))

  module _ (limit : ℕ) (least : 1 ≤ limit) (most : limit ≤ 100) where
    page_final :
        (rest : List A)
        → ltb limit (length rest) ≡ false
        → fetched codec occurred_at id limit (ok rest)
          ≡ ok (record { items = rest; next_cursor = none })
    unfolding fetched
    page_final rest h =
        rw (take_more limit rest)
          (rw (has_more limit rest) (rw h (rw (take_all limit rest (ground arith)))))

    page_full :
        (rest : List A) (y : A)
        → ltb limit (length rest) ≡ true
        → last_of (take limit rest) ≡ some y
        → fetched codec occurred_at id limit (ok rest)
          ≡ ok (record {
            items = take limit rest;
            next_cursor = some (codec.encode (occurred_at y) (id y));
          })
    unfolding fetched
    page_full rest y h e = rw (take_more limit rest) (rw (has_more limit rest) (rw h (rw e)))

    paged :
        (rows : List A) (cursor : Option codec.Text)
        → paginate codec occurred_at id rows cursor limit
          ≡ fetched codec occurred_at id limit (selected codec occurred_at id rows cursor)
    unfolding paginate
    paged rows cursor = let fits : (leb 1 limit && leb limit 100) ≡ true = ground arith in rw fits

    walk_rest :
        (pages : ℕ) (rows pre rest : List A) (cursor : Option codec.Text)
        → IsAscending rows
        → rows ≡ pre ++ rest
        → selected codec occurred_at id rows cursor ≡ ok rest
        → length rest < pages
        → walk pages limit rows cursor ≡ some rest
    unfolding walk
    walk_rest zero rows pre rest cursor up split at short = absurd (omega arith)
    walk_rest (suc pages) rows pre rest cursor up split at short =
        elim (Bool-cases (ltb limit (length rest))) [
          | inr e ↦ rw (paged rows cursor) (rw at (rw (page_final rest e)))
          | inl e ↦
              let t = taken_some limit rest least (ground arith) in
              let split' : rows ≡ (pre ++ t.before) ++ t.final ∷ drop limit rest =
                split
                ∙ ap (λ l. pre ++ l)
                    (sym (take-drop limit rest)
                      ∙ ap (λ l. l ++ drop limit rest) t.parts
                      ∙ append_assoc t.before (t.final ∷ []) (drop limit rest))
                ∙ sym (append_assoc pre t.before (t.final ∷ drop limit rest)) in
              rw (paged rows cursor) (
                rw at (
                  rw (page_full rest t.final e t.is_last) (
                    rw
                      (walk_rest pages rows ((pre ++ t.before) ++ t.final ∷ []) (drop limit rest)
                        (some (codec.encode (occurred_at t.final) (id t.final))) up
                        (split'
                          ∙ sym (append_assoc (pre ++ t.before) (t.final ∷ []) (drop limit rest)))
                        (subst
                          (λ l.
                            selected codec occurred_at id l
                              (some (codec.encode (occurred_at t.final) (id t.final)))
                            ≡ ok (drop limit rest))
                          (sym split')
                          (selected_after (pre ++ t.before) t.final (drop limit rest)
                            (subst IsAscending split' up)))
                        (omega (arith, length-drop limit rest (ground arith))))
                      (ap some (take-drop limit rest)))))
        ]

  -- With a limit from 1 to 100 on rows in ascending order, a client that asks for the first page and
  -- follows the cursors, for more pages than there are rows at most, comes to an end and has read
  -- the rows, each once and in their order.
  pub walk-eq-rows :
      (limit pages : ℕ) (rows : List A)
      → 1 ≤ limit
      → limit ≤ 100
      → IsAscending rows
      → length rows < pages
      → walk pages limit rows none ≡ some rows
  unfolding selected
  walk-eq-rows limit pages rows least most up enough =
      walk_rest limit least most pages rows [] rows none up refl refl enough
