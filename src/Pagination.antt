-- ===== src/Pagination.antt =====
-- app/core/pagination.py: pages of a query, in the order of an instant and an identifier. The rows
-- are the query's, in that order. JSON, base64 and ISO dates are behind `CursorCodec`.
pub mod Walk
mod Tests
use omni_crm_backend.Prelude.{
  ℕ, zero, suc, ◌≡◌, Bool, true, false, not, ◌&&◌, ◌||◌, Option, none, some, List, [], ◌∷◌, Outcome,
  ok, err, ltb, leb, ◌==◌, if◌then◌else◌, select, take, length,
}

-- The text of a cursor: `encode` is `encode_cursor` at an instant in UTC and an identifier, `decode`
-- is `decode_cursor`, with none for what it refuses.
pub record CursorCodec : Type 1 where
  pub Text : Type 0
  pub is_empty : Text → Bool
  pub encode : ℕ → ℕ → Text
  pub decode : Text → Option (ℕ × ℕ)
  pub decode-encode :
      (occurred_at item_id : ℕ) → decode (encode occurred_at item_id) ≡ some (occurred_at, item_id)
  pub encode_not_empty : (occurred_at item_id : ℕ) → is_empty (encode occurred_at item_id) ≡ false

pub data PageError : Type 0 where
  invalid_limit invalid_cursor : PageError

pub record CursorPage (A Text : Type 0) : Type 0 where
  pub items : List A
  pub next_cursor : Option Text

-- items[-1]
abbrev pub last_of {ℓ} : {A : Type ℓ} → List A → Option A
last_of [] = none
last_of (x ∷ []) = some x
last_of (x ∷ y ∷ xs) = last_of (y ∷ xs)

module _ (codec : CursorCodec) {A : Type 0} (occurred_at : A → ℕ) (id : A → ℕ) where
  -- The condition that a cursor adds to the query.
  abbrev pub is_beyond : ℕ → ℕ → A → Bool
  is_beyond t i x = ltb t (occurred_at x) || (occurred_at x == t && ltb i (id x))

  abbrev pub cursor_of : Option A → Option codec.Text
  cursor_of none = none
  cursor_of (some x) = some (codec.encode (occurred_at x) (id x))

  abbrev pub page_of : ℕ → List A → CursorPage A codec.Text
  page_of limit rows = record {
    items = take limit rows;
    next_cursor = if ltb limit (length rows) then cursor_of (last_of (take limit rows)) else none;
  }

  abbrev pub after_decoded : List A → Option (ℕ × ℕ) → Outcome PageError (List A)
  after_decoded rows none = err invalid_cursor
  after_decoded rows (some (t, i)) = ok (select (is_beyond t i) rows)

  -- The rows that the statement selects: `if cursor` leaves out None and the empty text.
  pub selected : List A → Option codec.Text → Outcome PageError (List A)
  selected rows none = ok rows
  selected rows (some c) = if codec.is_empty c then ok rows else after_decoded rows (codec.decode c)

  pub fetched : ℕ → Outcome PageError (List A) → Outcome PageError (CursorPage A codec.Text)
  fetched limit (err e) = err e
  fetched limit (ok rows) = ok (page_of limit (take (suc limit) rows))

  unfoldable pub paginate :
      List A → Option codec.Text → ℕ → Outcome PageError (CursorPage A codec.Text)
  unfolding selected fetched
  paginate rows cursor limit =
      if leb 1 limit && leb limit 100
      then fetched limit (selected rows cursor)
      else err invalid_limit
