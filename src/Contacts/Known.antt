-- ===== src/Contacts/Known.antt =====
-- What the tables say after an account has been written to them.
use text.Mathlib.TextPositions.{eq_refl}
use mathlib.Core.Path.{subst}
use omni_crm_backend.Prelude.{
  ℕ, ◌≡◌, ◌≢◌, refl, String, Bool, true, false, inl, inr, Option, none, some, List, [], ◌∷◌, arith,
  ok, ◌==◌, ==_refl, is_some, Bool-cases, first, select, insert, All,
}
use omni_crm_backend.Prelude.RowLaws.{first_sound, first-append, All-first}
use omni_crm_backend.Prelude.Keys.{IsKeyed}
use omni_crm_backend.Contacts.{
  Contact, ContactIdentity, Book, Account, Draw, is_live, is_live_contact, has_key, identifies,
  get_contact_identity, new_identity, upsert_found, upsert_contact_identity, is_match,
}

-- The account is found, and leads to this contact.
pub record Known (a : Account) (book : Book) (c : Contact) : Type 0 where
  pub identity : ContactIdentity
  pub found :
      get_contact_identity a.tenant_id a.channel_asset_id a.external_user_id book ≡ some identity
  pub contact : first (is_live_contact a.tenant_id identity.contact_id) book.contacts ≡ some c

module _ (a : Account) where
  -- An identity that is found has a contact.
  pub joined :
      (book : Book) (i : ContactIdentity)
      → get_contact_identity a.tenant_id a.channel_asset_id a.external_user_id book ≡ some i
      → is_some (first (is_live_contact a.tenant_id i.contact_id) book.contacts) ≡ true
  unfolding get_contact_identity
  joined book i h = ground (
    arith,
    first_sound (identifies a.tenant_id a.channel_asset_id a.external_user_id book.contacts)
        book.identities h,
  )

  new_identifies :
      (d : Draw) (c : Contact) (contacts : List Contact)
      → first (is_live_contact a.tenant_id c.id) contacts ≡ some c
      → identifies a.tenant_id a.channel_asset_id a.external_user_id contacts
          (new_identity d c.id a)
        ≡ true
  new_identifies d c contacts h =
      rw (==_refl a.tenant_id, ==_refl a.channel_asset_id) (rw (eq_refl a.external_user_id) (rw h))

  inserted-Known :
      (d : Draw) (c : Contact) (book : Book) {book' : Book}
      → first (is_live_contact a.tenant_id c.id) book.contacts ≡ some c
      → get_contact_identity a.tenant_id a.channel_asset_id a.external_user_id book ≡ none
      → upsert_found d c.id a book none ≡ ok book'
      → Known a book' c
  unfolding upsert_found get_contact_identity
  inserted-Known d c book {book'} live new h =
      elim (Bool-cases (
        is_some
          (first (has_key a.tenant_id a.channel_asset_id a.external_user_id) book.identities))) [
            | inl t ↦ absurd (cc (rw t at h))
            | inr t ↦
                let same : record book {
                  identities = insert (new_identity d c.id a) book.identities;
                }
                    ≡ book' =
                  cc (rw t at h) in
                subst (λ b. Known a b c) same
                  record {
                    identity = new_identity d c.id a;
                    found =
                        rw first-append
                          (rw new (unfold first in rw (new_identifies d c book.contacts live)));
                    contact = live;
                  }
          ]

  pub upsert-Known :
      (d : Draw) (c : Contact) (book : Book) {book' : Book}
      → first (is_live_contact a.tenant_id c.id) book.contacts ≡ some c
      → get_contact_identity a.tenant_id a.channel_asset_id a.external_user_id book ≡ none
      → upsert_contact_identity d c.id a book ≡ ok book'
      → Known a book' c
  unfolding upsert_contact_identity
  upsert-Known d c book live new h = inserted-Known d c book live new (rw new at h)

-- Among contacts with different identifiers, the only match is the one with its identifier.
pub first_of_match :
    (tenant_id : ℕ) (phone email : Option String) (contacts : List Contact) {c : Contact}
    → IsKeyed (λ x. x.id) contacts
    → first (is_match tenant_id phone email) contacts ≡ some c
    → first (is_live_contact tenant_id c.id) contacts ≡ some c
unfolding first
first_of_match tenant_id phone email [] keyed h = absurd (cc)
first_of_match tenant_id phone email (x ∷ xs) {c} keyed h =
    elim (Bool-cases (is_match tenant_id phone email x)) [
      | inl t ↦
          let same : x ≡ c = cc (t, h) in
          let live : is_live tenant_id x ≡ true = ground arith in
          subst (λ y. first (is_live_contact tenant_id y.id) (x ∷ xs) ≡ some y) same
            (rw (==_refl x.id) (rw live))
      | inr t ↦
          let later : first (is_match tenant_id phone email) xs ≡ some c = rw t at h in
          let ne : c.id ≢ x.id =
            All-first (λ y. y.id ≢ x.id) (is_match tenant_id phone email) xs keyed.0 later in
          let miss : (x.id == c.id) ≡ false = ground (arith, ne) in
          rw miss (first_of_match tenant_id phone email xs keyed.1 later)
    ]

pub first_of_single :
    (p : Contact → Bool) (contacts : List Contact) {c : Contact}
    → select p contacts ≡ c ∷ []
    → first p contacts ≡ some c
unfolding select first
first_of_single p [] h = absurd (cc)
first_of_single p (x ∷ xs) {c} h = elim (Bool-cases (p x)) [
  | inl t ↦ ground (arith, t)
  | inr t ↦ rw t (first_of_single p xs (rw t at h))
]

-- A contact with a new identifier is found by it.
pub new_live :
    (tenant_id : ℕ) (contacts : List Contact) (c : Contact)
    → All (λ x. x.id ≢ c.id) contacts
    → is_live tenant_id c ≡ true
    → first (is_live_contact tenant_id c.id) (insert c contacts) ≡ some c
unfolding first
new_live tenant_id [] c new live = rw (==_refl c.id) (rw live)
new_live tenant_id (x ∷ xs) c new live =
    let miss : (x.id == c.id) ≡ false = ground (arith, new.0) in
    rw miss (new_live tenant_id xs c new.1 live)

module _ (tenant_id : ℕ) (c : Contact) where
  -- It joins no identity that was there.
  other_live :
      (contacts : List Contact) (k : ℕ)
      → k ≢ c.id
      → first (is_live_contact tenant_id k) (insert c contacts)
        ≡ first (is_live_contact tenant_id k) contacts
  unfolding first
  other_live [] k ne = let miss : (c.id == k) ≡ false = ground (arith, ne) in rw miss
  other_live (x ∷ xs) k ne = elim (Bool-cases (is_live_contact tenant_id k x)) [
    | inl t ↦ rw t
    | inr t ↦ rw t (other_live xs k ne)
  ]

  pub none_joined :
      (channel_asset_id : ℕ) (external_user_id : String) (contacts : List Contact)
      (identities : List ContactIdentity)
      → All (λ i. i.contact_id ≢ c.id) identities
      → first (identifies tenant_id channel_asset_id external_user_id contacts) identities ≡ none
      → first
          (identifies tenant_id channel_asset_id external_user_id (insert c contacts))
          identities
        ≡ none
  unfolding first
  none_joined channel_asset_id external_user_id contacts [] new h = refl
  none_joined channel_asset_id external_user_id contacts (i ∷ is) new h =
      elim (Bool-cases (identifies tenant_id channel_asset_id external_user_id contacts i)) [
        | inl t ↦ absurd (cc (rw t at h))
        | inr t ↦
            let miss : identifies tenant_id channel_asset_id external_user_id (insert c contacts) i
                ≡ false =
              rw (other_live contacts i.contact_id new.0) t in
            rw miss (none_joined channel_asset_id external_user_id contacts is new.1 (rw t at h))
      ]
