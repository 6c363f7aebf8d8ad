-- ===== src/Identity/Mail/Once.antt =====
-- Of the workers that come for one mail, one sends it.
use text.Mathlib.Text.{◌==◌ as str_eq}
use omni_crm_backend.Prelude.{
  ℕ, ◌≡◌, refl, String, true, inl, inr, Option, none, some, List, arith, ◌==◌, ==_refl, Bool-cases,
  first, update,
}
use omni_crm_backend.Prelude.RowLaws.{first-update}
use omni_crm_backend.Identity.{EmailOutbox, EmailStatus, Store}
use omni_crm_backend.Identity.Credentials.{issue_verification_token}
use omni_crm_backend.Identity.Mail.{
  Mail, FreshToken, take_delivery, take_row, make_mail, in_work, is_taken, row_status,
}

-- The row as it is found again.
row_after :
    (id : ℕ) (f : EmailOutbox → EmailOutbox) (rows : List EmailOutbox) {r : EmailOutbox}
    → ((x : EmailOutbox) → (f x).id ≡ x.id)
    → first (λ x. x.id == id) rows ≡ some r
    → first (λ x. x.id == id) (update (λ x. x.id == r.id) f rows) ≡ some (f r)
row_after id f rows {r} keep h =
    rw (first-update (λ x. x.id == id) (λ x. x.id == r.id) f (λ x. ground (arith, keep x)) rows)
      (rw h (rw (==_refl r.id)))

module _ (sha256 : String → String) (base_url : String) where
  -- A row that is taken gives no mail.
  taken_quiet :
      (now : ℕ) (fresh : FreshToken) (outbox_id : ℕ) (db : Store) (r : EmailOutbox)
      → first (λ x. x.id == outbox_id) db.email_outbox ≡ some r
      → is_taken r.status ≡ true
      → take_delivery sha256 base_url now fresh outbox_id db ≡ ((row_status r.status, none), db)
  unfolding take_delivery take_row
  taken_quiet now fresh outbox_id db r found taken = rw found (rw taken refl)

  mail_made :
      (now : ℕ) (fresh : FreshToken) (outbox_id : ℕ) (db : Store) (r : EmailOutbox) (u : Option ℕ)
      {mail : Mail}
      → first (λ x. x.id == outbox_id) db.email_outbox ≡ some r
      → (make_mail sha256 base_url now fresh r u db).0.1 ≡ some mail
      → (row : EmailOutbox) × (first
            (λ x. x.id == outbox_id)
            (make_mail sha256 base_url now fresh r u db).1.email_outbox
          ≡ some (in_work now row))
  unfolding make_mail issue_verification_token
  mail_made now fresh outbox_id db r none found h = absurd (cc)
  mail_made now fresh outbox_id db r (some u) found h =
      (r, row_after outbox_id (in_work now) db.email_outbox (λ x. refl) found)

  -- The row of a mail that has been taken.
  mail_taken :
      (now : ℕ) (fresh : FreshToken) (outbox_id : ℕ) (db : Store) (o : Option EmailOutbox)
      {mail : Mail}
      → first (λ x. x.id == outbox_id) db.email_outbox ≡ o
      → (take_row sha256 base_url now fresh db o).0.1 ≡ some mail
      → (r : EmailOutbox) × (first
            (λ x. x.id == outbox_id)
            (take_row sha256 base_url now fresh db o).1.email_outbox
          ≡ some (in_work now r))
  unfolding take_row
  mail_taken now fresh outbox_id db none found h = absurd (cc)
  mail_taken now fresh outbox_id db (some r) found h = elim (Bool-cases (is_taken r.status)) [
    | inl e ↦ absurd (ground (arith, e))
    | inr e ↦ elim (Bool-cases (str_eq r.template "verify_email")) [
      | inr d ↦ rw (e, d) (r, row_after outbox_id (in_work now) db.email_outbox (λ x. refl) found)
      | inl d ↦ rw (e, d) (mail_made now fresh outbox_id db r r.user_id found (rw (e, d) at h))
    ]
  ]

  taken_row :
      (now : ℕ) (fresh : FreshToken) (outbox_id : ℕ) (db : Store) {mail : Mail}
      → (take_delivery sha256 base_url now fresh outbox_id db).0.1 ≡ some mail
      → (r : EmailOutbox) × (first
            (λ x. x.id == outbox_id)
            (take_delivery sha256 base_url now fresh outbox_id db).1.email_outbox
          ≡ some (in_work now r))
  unfolding take_delivery
  taken_row now fresh outbox_id db h =
      mail_taken now fresh outbox_id db (first (λ r. r.id == outbox_id) db.email_outbox) refl h

  -- A mail that is in work is given to no other worker: whoever comes next gets the status and
  -- writes nothing.
  pub take-take :
      (now now' : ℕ) (fresh fresh' : FreshToken) (outbox_id : ℕ) (db : Store) {mail : Mail}
      → (take_delivery sha256 base_url now fresh outbox_id db).0.1 ≡ some mail
      → take_delivery sha256 base_url now' fresh' outbox_id
          (take_delivery sha256 base_url now fresh outbox_id db).1
        ≡ (
          (row_status EmailStatus.processing, none),
          (take_delivery sha256 base_url now fresh outbox_id db).1,
        )
  take-take now now' fresh fresh' outbox_id db h =
      let (r, found) = taken_row now fresh outbox_id db h in
      taken_quiet now' fresh' outbox_id (take_delivery sha256 base_url now fresh outbox_id db).1
        (in_work now r) found refl
