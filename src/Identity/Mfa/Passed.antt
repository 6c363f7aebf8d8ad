-- ===== src/Identity/Mfa/Passed.antt =====
-- What a second factor that passes has shown.
use text.Mathlib.Text.{◌==◌ as str_eq}
use omni_crm_backend.Prelude.{
  ℕ, ◌≡◌, refl, String, true, not, ◌&&◌, ◌||◌, ◌⊎◌, inl, inr, Option, none, some, arith, Outcome,
  ok, err, ◌==◌, is_none, first, update, Bool-cases, Option-cases,
}
use omni_crm_backend.Identity.{User, MfaRecoveryCode, Store}
use omni_crm_backend.Identity.Mfa.{
  invalid_mfa_factor, MfaLibrary, MfaError, verify_mfa_factor, check_factor, recover, usable,
  hash_recovery_code, secret_of, is_set,
}

module _ (lib : MfaLibrary) (now : ℕ) (u : User) (code : String) where
  -- A code of the user that was not used, with the hash of the code that was given; all that is
  -- written is that it is used now.
  pub record Recovered (db after : Store) : Type 0 where
    pub row : MfaRecoveryCode
    pub found :
        first
          (λ c.
            c.user_id == u.id
            && (str_eq c.code_hash (lib.hash_code (lib.normalize_code code)) && is_none c.used_at))
          db.recovery_codes
        ≡ some row
    pub spent : after ≡ record db {
      recovery_codes =
          update (λ c. c.id == row.id) (λ c. record c { used_at = some now }) db.recovery_codes;
    }

  -- The user has a second factor whose secret is decrypted, and the code is a one-time password of
  -- that secret, with nothing written, or a recovery code.
  pub record Passed (db after : Store) : Type 0 where
    pub enabled : u.mfa_enabled ≡ true
    pub ciphertext : String
    pub stored : u.mfa_secret_encrypted ≡ some ciphertext
    pub secret : String
    pub decrypted : lib.decrypt ciphertext ≡ some secret
    pub proven : ((lib.totp_verify now secret code ≡ true) × (after ≡ db)) ⊎ Recovered db after

  recover_sound :
      (db : Store)
      → (recover lib now u code db).0 ≡ ok true
      → Recovered db (recover lib now u code db).1
  unfolding recover
  recover_sound db h =
      elim (Option-cases (first (usable u.id (hash_recovery_code lib code)) db.recovery_codes)) [
        | inl e ↦ absurd (ground (arith, e))
        | inr (c, e) ↦ rw (e, recover) (record { row = c; found = e; spent = refl })
      ]

  check_sound :
      (db : Store) (o : Outcome MfaError String)
      → (check_factor lib now u code db o).0 ≡ ok true
      → (secret : String) × (o ≡ ok secret)
        × (((lib.totp_verify now secret code ≡ true) × ((check_factor lib now u code db o).1 ≡ db))
            ⊎ Recovered db (check_factor lib now u code db o).1)
  unfolding check_factor
  check_sound db (err e) h = absurd (cc)
  check_sound db (ok secret) h = (
    secret,
    refl,
    elim (Bool-cases (lib.totp_verify now secret code)) [
      | inl e ↦ inl (e, rw e refl)
      | inr e ↦ inr (rw e (recover_sound db (rw e at h)))
    ],
  )

  decrypted_of :
      (o : Option String) {secret : String}
      → elim o as (λ x. Outcome MfaError String) [ none ↦ err invalid_mfa_factor | some s ↦ ok s ]
        ≡ ok secret
      → o ≡ some secret
  decrypted_of none h = absurd (cc)
  decrypted_of (some s) h = ground arith

  secret_of_sound :
      (stored : Option String) {secret : String}
      → secret_of lib stored ≡ ok secret
      → (ciphertext : String) × (stored ≡ some ciphertext) × (lib.decrypt ciphertext ≡ some secret)
  secret_of_sound none h = absurd (cc)
  secret_of_sound (some ciphertext) h = (ciphertext, refl, decrypted_of (lib.decrypt ciphertext) h)

  pub verify_mfa_factor_sound :
      (db : Store)
      → (verify_mfa_factor lib now u code db).0 ≡ ok true
      → Passed db (verify_mfa_factor lib now u code db).1
  unfolding verify_mfa_factor
  verify_mfa_factor_sound db h =
      elim (Bool-cases (not u.mfa_enabled || not (is_set u.mfa_secret_encrypted))) [
        | inl off ↦ absurd (cc (rw off at h))
        | inr on ↦
            let (s, e, proof) =
              check_sound db (secret_of lib u.mfa_secret_encrypted) (rw on at h) in
            let (c, has, opened) = secret_of_sound u.mfa_secret_encrypted e in
            rw on (record {
              enabled = ground (arith, on);
              ciphertext = c;
              stored = has;
              secret = s;
              decrypted = opened;
              proven = proof;
            })
      ]
