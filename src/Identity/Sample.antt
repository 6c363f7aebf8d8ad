-- ===== src/Identity/Sample.antt =====
-- The rows and the library code that the tests share: one company with one administrator.
use omni_crm_backend.Prelude.{ℕ, zero, suc, String, false, none, some, [], ◌∷◌}
use omni_crm_backend.Identity.{User, Membership, Role, Store, UserStatus, MembershipStatus}
use omni_crm_backend.Identity.Sessions.{Library, Settings, Fresh}

-- The text of a UUID, for the tests: as many strokes as its number.
unfoldable pub strokes : ℕ → String
strokes zero = ""
strokes (suc n) = String.◌∷◌ "1" (strokes n)

unfoldable pub count_strokes : String → ℕ
count_strokes String.[] = zero
count_strokes (String.◌∷◌ c s) = suc (count_strokes s)

abbrev pub library : Library
library = record { sha256 = λ s. s; show_uuid = strokes; parse_uuid = λ s. some (count_strokes s) }

abbrev pub settings : Settings
settings = record { access_token_ttl_seconds = 900; refresh_token_ttl_days = 30 }

abbrev pub ana : User
ana = record {
  id = 1;
  name = "Ana";
  email = "ana@example.com";
  password_hash = "h";
  mfa_enabled = false;
  mfa_secret_encrypted = none;
  status = UserStatus.active;
  email_verified_at = some 1;
}

abbrev pub membership : Membership
membership = record {
  id = 5;
  tenant_id = 9;
  user_id = 1;
  role = Role.administrador;
  status = MembershipStatus.active;
  accepted_at = some 1;
}

abbrev pub start : Store
start = record {
  users = ana ∷ [];
  memberships = membership ∷ [];
  auth_sessions = [];
  refresh_tokens = [];
  password_reset_tokens = [];
  email_verification_tokens = [];
  recovery_codes = [];
  invitations = [];
  email_outbox = [];
}

abbrev pub secret : String
secret = "0123456789abcdef0123456789abcdef"

abbrev pub fresh : Fresh
fresh = record { session_id = 2; family_id = 3; token_id = 4; secret = secret }
