-- ===== src/Identity/Mfa/Recovery.antt =====
-- A recovery code stands in for the second factor once.
use omni_crm_backend.Prelude.{
  ℕ, ◌≤◌, ◌≡◌, refl, String, true, false, not, ◌||◌, inl, inr, arith, Outcome, ok, err, ◌==◌,
  ==_refl, first, count, Bool-cases, Option-cases,
}
use omni_crm_backend.Prelude.RowLaws.{count-update_found, first-none_of_count}
use omni_crm_backend.Identity.{User, Store}
use omni_crm_backend.Identity.Mfa.{
  MfaLibrary, MfaError, verify_mfa_factor, check_factor, recover, use_code, usable,
  hash_recovery_code, secret_of, is_set,
}

module _ (lib : MfaLibrary) (code : String)
    (refused : (t : ℕ) (secret : String) → lib.totp_verify t secret code ≡ false) (u : User) where
  -- How many rows the code would still be accepted by.
  abbrev pub left : Store → ℕ
  left db = count (usable u.id (hash_recovery_code lib code)) db.recovery_codes

  -- The factor is accepted only if a code is found, and then no usable one is left.
  recover_spends :
      (now : ℕ) (db : Store)
      → left db ≤ 1
      → (recover lib now u code db).0 ≡ ok true
      → left (recover lib now u code db).1 ≡ 0
  unfolding recover
  recover_spends now db one h =
      elim (Option-cases (first (usable u.id (hash_recovery_code lib code)) db.recovery_codes)) [
        | inl e ↦ absurd (ground (arith, e))
        | inr (c, e) ↦
            rw (e, recover)
              (omega (
                arith,
                one,
                count-update_found (usable u.id (hash_recovery_code lib code)) (λ x. x.id == c.id)
                    (use_code lib now) (λ x q. ground arith) db.recovery_codes {r = c} e
                    (==_refl c.id),
              ))
      ]

  recover_none : (now : ℕ) (db : Store) → left db ≡ 0 → recover lib now u code db ≡ (ok false, db)
  unfolding recover
  recover_none now db h =
      rw (
        first-none_of_count (usable u.id (hash_recovery_code lib code)) db.recovery_codes h,
        recover,
      )

  check_spends :
      (now now' : ℕ) (db : Store) (o : Outcome MfaError String)
      → left db ≤ 1
      → (check_factor lib now u code db o).0 ≡ ok true
      → check_factor lib now' u code (check_factor lib now u code db o).1 o
        ≡ (ok false, (check_factor lib now u code db o).1)
  unfolding check_factor
  check_spends now now' db (err e) one h = absurd (cc)
  check_spends now now' db (ok secret) one h = rw (refused now secret) (
      rw (refused now' secret) (
        recover_none now' (recover lib now u code db).1
          (recover_spends now db one (rw (refused now secret) at h))))

  -- A recovery code that the user has at most once, and that is no current one-time password, is
  -- accepted once: a second use gives false and changes nothing.
  pub verify-verify :
      (now now' : ℕ) (db : Store)
      → left db ≤ 1
      → (verify_mfa_factor lib now u code db).0 ≡ ok true
      → verify_mfa_factor lib now' u code (verify_mfa_factor lib now u code db).1
        ≡ (ok false, (verify_mfa_factor lib now u code db).1)
  unfolding verify_mfa_factor
  verify-verify now now' db one h =
      elim (Bool-cases (not u.mfa_enabled || not (is_set u.mfa_secret_encrypted))) [
        | inl off ↦ rw off refl
        | inr on ↦
            rw on (check_spends now now' db (secret_of lib u.mfa_secret_encrypted) one (rw on at h))
      ]
