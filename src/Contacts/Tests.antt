-- ===== src/Contacts/Tests.antt =====
-- An account that writes twice.
use omni_crm_backend.Prelude.{◌≡◌, refl, ◌==◌, none, some, [], ◌∷◌, ok, err, first, select}
use omni_crm_backend.Conversations.{Channel}
use omni_crm_backend.Contacts.{
  Contact, Book, Account, Draw, find_or_create_contact, new_contact, get_contact_identity,
  upsert_contact_identity, ambiguous_match,
}
use omni_crm_backend.Contacts.Normal.{TextLibrary, normalize_email, normalize_phone}
use omni_crm_backend.Contacts.Resolved.{find-find}

abbrev plain : TextLibrary
plain = record {
  strip = λ s. s;
  lower = λ s. s;
  is_space = λ c. c == b' ';
  format_phone = λ s r. some s;
}

abbrev account : Account
account = record {
  tenant_id = 9;
  channel = Channel.whatsapp;
  channel_asset_id = 3;
  external_user_id = "57300";
  name = some "Ana";
}

abbrev draw : Draw
draw = record { now = 70; contact_id = 30; identity_id = 31 }

abbrev empty : Book
empty = record { contacts = []; identities = []; assets = [] }

email_kept : normalize_email plain "ana@crm.co" ≡ some "ana@crm.co"
unfolding normalize_email
email_kept = refl

email_refused : normalize_email plain "ana@crm" ≡ none
unfolding normalize_email
email_refused = refl

abbrev ana : Contact
ana = new_contact plain draw account (some "57300") none

made : (find_or_create_contact plain draw account (some "57300") none empty).0 ≡ ok ana
unfolding find_or_create_contact get_contact_identity upsert_contact_identity normalize_phone first
    select
made = refl

-- A phone of one contact and an email of another are not decided on.
two_matches :
    (find_or_create_contact plain draw account (some "57300") (some "eva@crm.co") (record empty {
      contacts = ana ∷ record ana { id = 40; phone = none; email = some "eva@crm.co" } ∷ [];
    })).0
    ≡ err ambiguous_match
unfolding find_or_create_contact get_contact_identity upsert_contact_identity normalize_phone
    normalize_email first select
two_matches = refl

find-find_example :
    find_or_create_contact plain
      (record draw { contact_id = 50; identity_id = 51 })
      account
      (some "57300")
      none
      (find_or_create_contact plain draw account (some "57300") none empty).1
    ≡ (ok ana, (find_or_create_contact plain draw account (some "57300") none empty).1)
find-find_example =
    find-find plain account draw (record draw { contact_id = 50; identity_id = 51 }) (some "57300")
      none empty {c = ana} (record { keyed = tt; new_contact = tt; unreferenced = tt }) made
