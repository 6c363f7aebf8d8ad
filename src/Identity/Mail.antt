-- ===== src/Identity/Mail.antt =====
-- app/services/email_outbox.py: a mail is taken from the outbox in one transaction, sent between
-- two, and settled in the second. `sender` stands for SMTP: the result of sending a mail. Another
-- worker may run between the transactions; `settle_delivery` is then called on what it has left.
pub mod Once
mod Tests
use Prim.Native.String.{◌++◌ as ◌++ₜ◌}
use text.Mathlib.Text.{◌==◌ as str_eq}
use omni_crm_backend.Prelude.{
  ℕ, ◌+◌, String, Bool, true, false, Option, none, some, List, ◌==◌, hours, if◌then◌else◌, first,
  update,
}
use omni_crm_backend.Identity.{EmailOutbox, EmailStatus, Store}
use omni_crm_backend.Identity.Credentials.{issue_verification_token}

pub record Mail : Type 0 where
  pub recipient : String
  pub subject : String
  pub text_body : String
  pub html_body : Option String

-- EmailSendResult: its status is one of "sent", "failed" and "unknown".
pub data SendStatus : Type 0 where
  sent failed unknown : SendStatus

pub record EmailSendResult : Type 0 where
  pub status : SendStatus
  pub error : Option String

-- What `deliver_email_outbox` returns: "missing", or the status of the row.
pub data Delivery : Type 0 where
  missing : Delivery
  row_status : EmailStatus → Delivery

-- status in {"sent", "processing", "unknown"}
abbrev pub is_taken : EmailStatus → Bool
is_taken EmailStatus.sent = true
is_taken EmailStatus.processing = true
is_taken EmailStatus.unknown = true
is_taken _ = false

abbrev pub is_processing : EmailStatus → Bool
is_processing EmailStatus.processing = true
is_processing _ = false

abbrev pub to_status : SendStatus → EmailStatus
to_status sent = EmailStatus.sent
to_status SendStatus.failed = EmailStatus.failed
to_status SendStatus.unknown = EmailStatus.unknown

abbrev pub in_work : ℕ → EmailOutbox → EmailOutbox
in_work now r = record r {
  status = EmailStatus.processing;
  processing_started_at = some now;
  attempts = r.attempts + 1;
}

abbrev pub without_user : EmailOutbox → EmailOutbox
without_user r = record r {
  status = EmailStatus.failed;
  attempts = r.attempts + 1;
  last_error = some "VERIFICATION_USER_MISSING";
  processing_started_at = none;
}

abbrev pub plain_mail : EmailOutbox → Mail
plain_mail r = record {
  recipient = r.recipient;
  subject = r.subject;
  text_body = r.text_body;
  html_body = r.html_body;
}

abbrev pub verification_mail : String → EmailOutbox → Mail
verification_mail url r = record {
  recipient = r.recipient;
  subject = r.subject;
  text_body = "Verifica tu cuenta: " ++ₜ url;
  html_body =
      some ("<p>Verifica tu cuenta:</p><p><a href=\"" ++ₜ (url ++ₜ "\">Verificar cuenta</a></p>"));
}

abbrev pub verification_url : String → String → String
verification_url base_url raw_token = base_url ++ₜ ("/verify-email?token=" ++ₜ raw_token)

-- The identifier and the text of a token, if one is issued.
pub record FreshToken : Type 0 where
  pub id : ℕ
  pub raw_token : String

abbrev pub write_row : ℕ → (EmailOutbox → EmailOutbox) → Store → Store
write_row id f db = record db { email_outbox = update (λ x. x.id == id) f db.email_outbox }

module _ (sha256 : String → String) (base_url : String) where
  -- The row is set to be in work, and the mail is made of it.
  make_mail : ℕ → FreshToken → EmailOutbox → Option ℕ → Store → (Delivery × Option Mail) × Store
  make_mail now fresh r none db =
      ((row_status EmailStatus.failed, none), write_row r.id without_user db)
  make_mail now fresh r (some user_id) db = (
    (
      row_status EmailStatus.processing,
      some (verification_mail (verification_url base_url fresh.raw_token) r),
    ),
    write_row r.id (in_work now)
        (issue_verification_token sha256 now fresh.id fresh.raw_token user_id (hours 24) db).1,
  )

  take_row : ℕ → FreshToken → Store → Option EmailOutbox → (Delivery × Option Mail) × Store
  take_row now fresh db none = ((missing, none), db)
  take_row now fresh db (some r) =
      if is_taken r.status
      then ((row_status r.status, none), db)
      else if str_eq r.template "verify_email"
      then make_mail now fresh r r.user_id db
      else (
        (row_status EmailStatus.processing, some (plain_mail r)),
        write_row r.id (in_work now) db,
      )

  -- The first transaction: the mail to send, or what is returned at once.
  pub take_delivery : ℕ → FreshToken → ℕ → Store → (Delivery × Option Mail) × Store
  take_delivery now fresh outbox_id db =
      take_row now fresh db (first (λ r. r.id == outbox_id) db.email_outbox)

abbrev pub settled_row : ℕ → EmailSendResult → EmailOutbox → EmailOutbox
settled_row now result r = record r {
  status = to_status result.status;
  last_error = result.error;
  processing_started_at = none;
  sent_at = elim result.status [ sent ↦ some now | _ ↦ r.sent_at ];
}

-- The second transaction.
pub settle_delivery : ℕ → ℕ → EmailSendResult → Store → Delivery × Store
settle_delivery now outbox_id result db = elim (first (λ r. r.id == outbox_id) db.email_outbox) [
  | none ↦ (missing, db)
  | some r ↦ (row_status (to_status result.status), write_row r.id (settled_row now result) db)
]

module _ (sha256 : String → String) (base_url : String) (sender : Mail → EmailSendResult) where
  send_taken : ℕ → ℕ → (Delivery × Option Mail) × Store → Delivery × Store
  send_taken now outbox_id ((d, none), db) = (d, db)
  send_taken now outbox_id ((d, some mail), db) = settle_delivery now outbox_id (sender mail) db

  -- A run that no other worker enters.
  pub deliver_email_outbox : ℕ → FreshToken → ℕ → Store → Delivery × Store
  deliver_email_outbox now fresh outbox_id db =
      send_taken now outbox_id (take_delivery sha256 base_url now fresh outbox_id db)

pub mark_stale_email_as_unknown : ℕ → Store → Bool × Store
mark_stale_email_as_unknown outbox_id db = elim (first (λ r. r.id == outbox_id) db.email_outbox) [
  | none ↦ (false, db)
  | some r ↦
      if is_processing r.status
      then (
        true,
        write_row r.id
            (λ x. record x {
              status = EmailStatus.unknown;
              last_error = some "WORKER_RESULT_UNKNOWN";
              processing_started_at = none;
            })
            db,
      )
      else (false, db)
]
