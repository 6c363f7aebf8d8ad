-- ===== src/Identity/Mail/Tests.antt =====
-- The theorem on the outbox of mails at a concrete input.
use omni_crm_backend.Prelude.{◌≡◌, refl, String, none, some, [], ◌∷◌, first}
use omni_crm_backend.Identity.{EmailOutbox, EmailStatus, Store}
use omni_crm_backend.Identity.Sample.{start}
use omni_crm_backend.Identity.Mail.{
  make_mail, take_row, FreshToken, take_delivery, row_status, verification_mail, verification_url,
}
use omni_crm_backend.Identity.Mail.Once.{take-take}

abbrev welcome : EmailOutbox
welcome = record {
  id = 60;
  tenant_id = some 9;
  user_id = some 1;
  recipient = "ana@example.com";
  template = "verify_email";
  subject = "S";
  text_body = "T";
  html_body = none;
  status = EmailStatus.queued;
  attempts = 0;
  last_error = none;
  processing_started_at = none;
  sent_at = none;
}

abbrev database : Store
database = record start { email_outbox = welcome ∷ [] }

abbrev digest : String → String
digest s = s

abbrev fresh : FreshToken
fresh = record { id = 70; raw_token = "tok" }

taken :
    (take_delivery digest "http://x" 10 fresh 60 database).0.1
    ≡ some (verification_mail (verification_url "http://x" "tok") welcome)
unfolding take_delivery take_row make_mail first
taken = refl

take-take_example :
    take_delivery digest "http://x" 11 fresh 60
      (take_delivery digest "http://x" 10 fresh 60 database).1
    ≡ (
      (row_status EmailStatus.processing, none),
      (take_delivery digest "http://x" 10 fresh 60 database).1,
    )
take-take_example =
    take-take digest "http://x" 10 11 fresh fresh 60 database
      {mail = verification_mail (verification_url "http://x" "tok") welcome} taken
