-- ===== src/Contacts/Resolved.antt =====
-- An account that comes again is the same contact.
use mathlib.Core.Path.{subst}
use omni_crm_backend.Prelude.{
  ◌≡◌, ◌≢◌, refl, String, ◌||◌, inl, inr, Option, none, some, List, [], ◌∷◌, Outcome, ok, err,
  ==_refl, Bool-cases, first, select, insert, All,
}
use omni_crm_backend.Prelude.Keys.{IsKeyed}
use omni_crm_backend.Contacts.{
  Contact, ContactIdentity, ContactError, Book, Account, Draw, get_contact_identity,
  upsert_contact_identity, is_match, is_live_contact, contradicts, new_contact, identified,
  by_matches, by_contact, by_identity, resolve, find_or_create_contact, phone_of, email_of,
}
use omni_crm_backend.Contacts.Normal.{TextLibrary}
use omni_crm_backend.Contacts.Known.{
  Known, joined, upsert-Known, first_of_match, first_of_single, new_live, none_joined,
}

-- Contacts have different identifiers, and the identifier that the call may draw is new.
pub record IsReady (d : Draw) (book : Book) : Type 0 where
  pub keyed : IsKeyed (λ c. c.id) book.contacts
  pub new_contact : All (λ c. c.id ≢ d.contact_id) book.contacts
  pub unreferenced : All (λ i. i.contact_id ≢ d.contact_id) book.identities

module _ (lib : TextLibrary) (a : Account) where
  abbrev lookup : Book → Option ContactIdentity
  lookup = get_contact_identity a.tenant_id a.channel_asset_id a.external_user_id

  identified-Known :
      (c : Contact) (before : Book) (o : Outcome ContactError Book) {r : Contact}
      → ((book : Book) → o ≡ ok book → Known a book c)
      → (identified lib c before o).0 ≡ ok r
      → Known a (identified lib c before o).1 r
  unfolding identified
  identified-Known c before (err e) known h = absurd (cc)
  identified-Known c before (ok book) {r} known h =
      let same : c ≡ r = cc in subst (λ x. Known a book x) same (known book refl)

  matches-Known :
      (d : Draw) (phone email : Option String) (book : Book) (cs : List Contact) {r : Contact}
      → IsReady d book
      → lookup book ≡ none
      → select (is_match a.tenant_id phone email) book.contacts ≡ cs
      → (by_matches lib d a phone email book cs).0 ≡ ok r
      → Known a (by_matches lib d a phone email book cs).1 r
  unfolding by_matches
  matches-Known d phone email book [] ready unknown found h =
      let c = new_contact lib d a phone email in
      identified-Known c book
        (upsert_contact_identity d c.id a (record book { contacts = insert c book.contacts }))
        (λ b e.
          upsert-Known a d c (record book { contacts = insert c book.contacts })
            (new_live a.tenant_id book.contacts c ready.new_contact (rw (==_refl a.tenant_id)))
            (unfold get_contact_identity in
              none_joined a.tenant_id c a.channel_asset_id a.external_user_id book.contacts
                book.identities ready.unreferenced unknown)
            e)
        h
  matches-Known d phone email book (c ∷ []) ready unknown found h =
      elim (Bool-cases (contradicts phone c.phone || contradicts email c.email)) [
        | inl t ↦ absurd (cc (rw t at h))
        | inr t ↦ rw t (
            identified-Known c book (upsert_contact_identity d c.id a book)
              (λ b e.
                upsert-Known a d c book
                  (first_of_match a.tenant_id phone email book.contacts ready.keyed
                    (first_of_single (is_match a.tenant_id phone email) book.contacts found))
                  unknown e)
              (rw t at h))
      ]
  matches-Known d phone email book (c ∷ c' ∷ cs) ready unknown found h = absurd (cc)

  contact-Known :
      (d : Draw) (phone email : Option String) (book : Book) (i : ContactIdentity)
      (o : Option Contact) {r : Contact}
      → lookup book ≡ some i
      → first (is_live_contact a.tenant_id i.contact_id) book.contacts ≡ o
      → (by_contact lib d a phone email book o).0 ≡ ok r
      → Known a (by_contact lib d a phone email book o).1 r
  unfolding by_contact
  contact-Known d phone email book i none found contact h =
      absurd (cc (rw contact at (joined a book i found)))
  contact-Known d phone email book i (some c) {r} found contact h =
      let same : c ≡ r = cc in
      subst (λ x. Known a book x) same record { identity = i; found = found; contact = contact }

  identity-Known :
      (d : Draw) (phone email : Option String) (book : Book) (o : Option ContactIdentity)
      {r : Contact}
      → IsReady d book
      → lookup book ≡ o
      → (by_identity lib d a phone email book o).0 ≡ ok r
      → Known a (by_identity lib d a phone email book o).1 r
  unfolding by_identity by_contact
  identity-Known d phone email book none ready found h =
      matches-Known d phone email book (select (is_match a.tenant_id phone email) book.contacts)
        ready found refl h
  identity-Known d phone email book (some i) ready found h =
      contact-Known d phone email book i
        (first (is_live_contact a.tenant_id i.contact_id) book.contacts) found refl h

  resolve-Known :
      (d : Draw) (phone email : Outcome ContactError (Option String)) (book : Book) {r : Contact}
      → IsReady d book
      → (resolve lib d a phone email book).0 ≡ ok r
      → Known a (resolve lib d a phone email book).1 r
  unfolding resolve
  resolve-Known d (err e) email book ready h = absurd (cc)
  resolve-Known d (ok phone) (err e) book ready h = absurd (cc)
  resolve-Known d (ok phone) (ok email) book ready h =
      identity-Known d phone email book (lookup book) ready refl h

  -- A known account is resolved to its contact, and nothing is written.
  looked_up :
      (d : Draw) (phone email : Option String) (book : Book) {c : Contact}
      → Known a book c
      → by_identity lib d a phone email book (lookup book) ≡ (ok c, book)
  looked_up d phone email book k =
      rw k.found (unfold by_identity in (rw k.contact (unfold by_contact in refl)))

  resolved_again :
      (d d' : Draw) (phone email : Outcome ContactError (Option String)) (book book' : Book)
      {r c : Contact}
      → (resolve lib d a phone email book).0 ≡ ok r
      → Known a book' c
      → resolve lib d' a phone email book' ≡ (ok c, book')
  unfolding resolve
  resolved_again d d' (err e) email book book' h k = absurd (cc)
  resolved_again d d' (ok phone) (err e) book book' h k = absurd (cc)
  resolved_again d d' (ok phone) (ok email) book book' h k = looked_up d' phone email book' k

  -- Once an account on a channel asset has been resolved to a contact, found or made, the same call
  -- gives the same contact again, whatever identifiers it may draw, and writes nothing.
  pub find-find :
      (d d' : Draw) (phone email : Option String) (book : Book) {c : Contact}
      → IsReady d book
      → (find_or_create_contact lib d a phone email book).0 ≡ ok c
      → find_or_create_contact lib d' a phone email
          (find_or_create_contact lib d a phone email book).1
        ≡ (ok c, (find_or_create_contact lib d a phone email book).1)
  unfolding find_or_create_contact
  find-find d d' phone email book ready h =
      resolved_again d d' (phone_of lib phone) (email_of lib email) book
        (resolve lib d a (phone_of lib phone) (email_of lib email) book).1 h
        (resolve-Known d (phone_of lib phone) (email_of lib email) book ready h)
