-- ===== src/Contacts/Normal.antt =====
-- app/services/normalization.py: emails and phone numbers in one form.
use omni_crm_backend.Prelude.{
  ℕ, String, Bool, true, false, not, ◌&&◌, ◌||◌, Option, none, some, List, [], ◌∷◌, ◌==◌,
  if◌then◌else◌,
}
use text.Mathlib.Text.{◌==◌ as str_eq}
use Prim.Native.Char.{code}

pub record TextLibrary : Type 0 where
  pub strip : String → String
  pub lower : String → String
  pub is_space : ℕ → Bool
  pub format_phone : String → String → Option String

abbrev pub codes : String → List ℕ
codes String.[] = []
codes (String.◌∷◌ c s) = code c ∷ codes s

module _ (lib : TextLibrary) where
  -- [^@\s]
  abbrev pub is_plain : ℕ → Bool
  is_plain c = not (c == b'@' || lib.is_space c)

  abbrev pub all_plain : List ℕ → Bool
  all_plain [] = true
  all_plain (c ∷ cs) = is_plain c && all_plain cs

  -- \.[^@\s]+ somewhere
  abbrev pub has_dot : List ℕ → Bool
  has_dot [] = false
  has_dot (c ∷ []) = false
  has_dot (c ∷ d ∷ cs) = c == b'.' || has_dot (d ∷ cs)

  -- [^@\s]+\.[^@\s]+
  abbrev pub is_domain : List ℕ → Bool
  is_domain [] = false
  is_domain (c ∷ cs) = is_plain c && (all_plain cs && has_dot cs)

  -- The rest of a local part that has begun.
  abbrev pub after_start : List ℕ → Bool
  after_start [] = false
  after_start (c ∷ cs) = if c == b'@' then is_domain cs else is_plain c && after_start cs

  abbrev pub is_email : List ℕ → Bool
  is_email [] = false
  is_email (c ∷ cs) = is_plain c && after_start cs

  unfoldable pub normalize_email : String → Option String
  normalize_email raw =
      let value = lib.lower (lib.strip raw) in if is_email (codes value) then some value else none

  unfoldable pub normalize_phone : String → String → Option String
  normalize_phone raw region =
      let value = lib.strip raw in if str_eq value "" then none else lib.format_phone value region
