-- ===== src/Pagination/Tests.antt =====
-- Pages of three rows, two to a page.
use omni_crm_backend.Prelude.{ℕ, ◌≡◌, refl, Option, none, some, List, [], ◌∷◌, arith, ok, is_none}
use omni_crm_backend.Pagination.{CursorCodec, paginate}
use omni_crm_backend.Pagination.Walk.{walk, walk-eq-rows}

-- A cursor that is its content; the empty text is none.
abbrev plain : CursorCodec
plain = record {
  Text = Option (ℕ × ℕ);
  is_empty = is_none;
  encode = λ t i. some (t, i);
  decode = λ c. c;
  decode-encode = λ t i. refl;
  encode_not_empty = λ t i. refl;
}

abbrev rows : List (ℕ × ℕ)
rows = (5, 1) ∷ (5, 2) ∷ (7, 0) ∷ []

first_page :
    paginate plain (λ r. r.0) (λ r. r.1) rows none 2
    ≡ ok (record { items = (5, 1) ∷ (5, 2) ∷ []; next_cursor = some (some (5, 2)) })
unfolding paginate
first_page = refl

walk-eq-rows_example : walk plain (λ r. r.0) (λ r. r.1) 4 2 rows none ≡ some rows
walk-eq-rows_example =
    walk-eq-rows plain (λ r. r.0) (λ r. r.1) 2 4 rows (omega arith) (omega arith)
      ((refl, (refl, tt)), ((refl, tt), (tt, tt))) (omega arith)
