-- ===== src/Contacts.antt =====
-- app/services/contacts.py and normalization.py, app/repositories/contact_identities.py: the person behind
-- an account on a channel. `strip`, `lower` and `is_space` are Unicode's, `format_phone` is what the
-- library phonenumbers makes of a number of a region, none if it is not valid.
pub mod Normal
pub mod Known
pub mod Resolved
mod Tests
use omni_crm_backend.Prelude.{
  ℕ, String, Bool, true, false, not, ◌&&◌, ◌||◌, Option, none, some, List, [], ◌∷◌, Outcome, ok,
  err, ◌==◌, is_some, is_none, if◌then◌else◌, first, select, update, insert,
}
use text.Mathlib.Text.{◌==◌ as str_eq}
use omni_crm_backend.Conversations.{Channel}
use omni_crm_backend.Conversations.Outbound.{same_channel}
use omni_crm_backend.Contacts.Normal.{TextLibrary, normalize_email, normalize_phone}

pub data ContactStatus : Type 0 where
  active archived deleted : ContactStatus

pub record Contact : Type 0 where
  pub id : ℕ
  pub tenant_id : ℕ
  pub name : String
  pub phone : Option String
  pub email : Option String
  pub source_channel : Channel
  pub status : ContactStatus
  pub tags : List String
  pub deleted_at : Option ℕ

pub record ContactIdentity : Type 0 where
  pub id : ℕ
  pub tenant_id : ℕ
  pub contact_id : ℕ
  pub channel_asset_id : ℕ
  pub external_user_id : String
  pub display_name : Option String
  pub last_seen_at : Option ℕ

pub data AssetStatus : Type 0 where
  connected disconnected expired error : AssetStatus

pub record ChannelAsset : Type 0 where
  pub id : ℕ
  pub tenant_id : ℕ
  pub channel : Channel
  pub status : AssetStatus

pub record Book : Type 0 where
  pub contacts : List Contact
  pub identities : List ContactIdentity
  pub assets : List ChannelAsset

-- `integrity_error` is the database's, for a key that is taken.
pub data ContactError : Type 0 where
  invalid_phone invalid_email asset_required ambiguous_match integrity_error : ContactError

abbrev pub is_deleted : ContactStatus → Bool
is_deleted ContactStatus.deleted = true
is_deleted _ = false

abbrev pub is_connected : AssetStatus → Bool
is_connected AssetStatus.connected = true
is_connected _ = false

-- status != 'deleted' AND deleted_at IS NULL
abbrev pub is_live : ℕ → Contact → Bool
is_live tenant_id c =
    c.tenant_id == tenant_id && (not (is_deleted c.status) && is_none c.deleted_at)

abbrev pub is_live_contact : ℕ → ℕ → Contact → Bool
is_live_contact tenant_id contact_id c = c.id == contact_id && is_live tenant_id c

-- The key of an identity, which the table holds once.
abbrev pub has_key : ℕ → ℕ → String → ContactIdentity → Bool
has_key tenant_id channel_asset_id external_user_id i =
    i.tenant_id == tenant_id
    && (i.channel_asset_id == channel_asset_id && str_eq i.external_user_id external_user_id)

-- The join with the contact.
abbrev pub is_joined : ℕ → List Contact → ContactIdentity → Bool
is_joined tenant_id contacts i = is_some (first (is_live_contact tenant_id i.contact_id) contacts)

abbrev pub identifies : ℕ → ℕ → String → List Contact → ContactIdentity → Bool
identifies tenant_id channel_asset_id external_user_id contacts i =
    has_key tenant_id channel_asset_id external_user_id i && is_joined tenant_id contacts i

unfoldable pub get_contact_identity : ℕ → ℕ → String → Book → Option ContactIdentity
get_contact_identity tenant_id channel_asset_id external_user_id book =
    first (identifies tenant_id channel_asset_id external_user_id book.contacts) book.identities

-- What the call is about.
pub record Account : Type 0 where
  pub tenant_id : ℕ
  pub channel : Channel
  pub channel_asset_id : ℕ
  pub external_user_id : String
  pub name : Option String

-- The instant of the call and the identifiers that it may draw.
pub record Draw : Type 0 where
  pub now : ℕ
  pub contact_id : ℕ
  pub identity_id : ℕ

abbrev pub new_identity : Draw → ℕ → Account → ContactIdentity
new_identity d contact_id a = record {
  id = d.identity_id;
  tenant_id = a.tenant_id;
  contact_id = contact_id;
  channel_asset_id = a.channel_asset_id;
  external_user_id = a.external_user_id;
  display_name = a.name;
  last_seen_at = some d.now;
}

abbrev pub seen : Draw → ℕ → Account → ContactIdentity → ContactIdentity
seen d contact_id a i = record i {
  contact_id = contact_id;
  display_name = a.name;
  last_seen_at = some d.now;
}

pub upsert_found : Draw → ℕ → Account → Book → Option ContactIdentity → Outcome ContactError Book
upsert_found d contact_id a book (some i) =
    ok (record book {
      identities = update (λ x. x.id == i.id) (seen d contact_id a) book.identities;
    })
upsert_found d contact_id a book none =
    if is_some (first (has_key a.tenant_id a.channel_asset_id a.external_user_id) book.identities)
    then err integrity_error
    else ok (record book { identities = insert (new_identity d contact_id a) book.identities })

unfoldable pub upsert_contact_identity : Draw → ℕ → Account → Book → Outcome ContactError Book
unfolding upsert_found
upsert_contact_identity d contact_id a book =
    upsert_found d contact_id a book
      (get_contact_identity a.tenant_id a.channel_asset_id a.external_user_id book)

abbrev pub text_is : Option String → Option String → Bool
text_is (some s) (some t) = str_eq s t
text_is _ _ = false

-- phone and current.phone and current.phone != phone
abbrev pub contradicts : Option String → Option String → Bool
contradicts (some s) (some t) = not (str_eq t "") && not (str_eq t s)
contradicts _ _ = false

abbrev pub is_match : ℕ → Option String → Option String → Contact → Bool
is_match tenant_id phone email c =
    is_live tenant_id c && (text_is c.phone phone || text_is c.email email)

abbrev pub name_or : Option String → String
name_or none = "Contacto"
name_or (some n) = if str_eq n "" then "Contacto" else n

module _ (lib : TextLibrary) where
  abbrev pub new_contact : Draw → Account → Option String → Option String → Contact
  new_contact d a phone email = record {
    id = d.contact_id;
    tenant_id = a.tenant_id;
    name = lib.strip (name_or a.name);
    phone = phone;
    email = email;
    source_channel = a.channel;
    status = ContactStatus.active;
    tags = [];
    deleted_at = none;
  }

  -- The contact, and the book in which its identity has been written.
  pub identified : Contact → Book → Outcome ContactError Book → Outcome ContactError Contact × Book
  identified c before (err e) = (err e, before)
  identified c before (ok book) = (ok c, book)

  -- By the contacts that match the phone or the email; rows have different identifiers.
  pub by_matches :
      Draw
      → Account
      → Option String
      → Option String
      → Book
      → List Contact
      → Outcome ContactError Contact × Book
  by_matches d a phone email book [] =
      let c = new_contact d a phone email in
      identified c book
        (upsert_contact_identity d c.id a (record book { contacts = insert c book.contacts }))
  by_matches d a phone email book (c ∷ []) =
      if contradicts phone c.phone || contradicts email c.email
      then (err ambiguous_match, book)
      else identified c book (upsert_contact_identity d c.id a book)
  by_matches d a phone email book (c ∷ c' ∷ cs) = (err ambiguous_match, book)

  pub by_contact :
      Draw
      → Account
      → Option String
      → Option String
      → Book
      → Option Contact
      → Outcome ContactError Contact × Book
  by_contact d a phone email book (some c) = (ok c, book)
  by_contact d a phone email book none =
      by_matches d a phone email book (select (is_match a.tenant_id phone email) book.contacts)

  pub by_identity :
      Draw
      → Account
      → Option String
      → Option String
      → Book
      → Option ContactIdentity
      → Outcome ContactError Contact × Book
  by_identity d a phone email book none = by_contact d a phone email book none
  by_identity d a phone email book (some i) =
      by_contact d a phone email book
        (first (is_live_contact a.tenant_id i.contact_id) book.contacts)

  pub resolve :
      Draw
      → Account
      → Outcome ContactError (Option String)
      → Outcome ContactError (Option String)
      → Book
      → Outcome ContactError Contact × Book
  resolve d a (err e) email book = (err e, book)
  resolve d a (ok phone) (err e) book = (err e, book)
  resolve d a (ok phone) (ok email) book =
      by_identity d a phone email book
        (get_contact_identity a.tenant_id a.channel_asset_id a.external_user_id book)

  -- normalize(value) if value else None
  abbrev pub normal :
      ContactError → (String → Option String) → Option String → Outcome ContactError (Option String)
  normal e normalize none = ok none
  normal e normalize (some s) =
      if str_eq s "" then ok none else elim (normalize s) [ none ↦ err e | some t ↦ ok (some t) ]

  abbrev pub phone_of : Option String → Outcome ContactError (Option String)
  phone_of = normal invalid_phone (λ s. normalize_phone lib s "CO")

  abbrev pub email_of : Option String → Outcome ContactError (Option String)
  email_of = normal invalid_email (normalize_email lib)

  -- A call that names its channel asset.
  unfoldable pub find_or_create_contact :
      Draw → Account → Option String → Option String → Book → Outcome ContactError Contact × Book
  unfolding resolve by_identity by_contact by_matches identified
  find_or_create_contact d a phone email book = resolve d a (phone_of phone) (email_of email) book

  abbrev pub is_asset_of : ℕ → Channel → ChannelAsset → Bool
  is_asset_of tenant_id channel x =
      x.tenant_id == tenant_id && (same_channel x.channel channel && is_connected x.status)

  -- A call that does not: the channel's only connected asset is taken. A text that does not
  -- normalize is refused first.
  pub on_only_asset :
      Draw
      → Account
      → Option String
      → Option String
      → Book
      → List ChannelAsset
      → Outcome ContactError (Option String)
      → Outcome ContactError (Option String)
      → Outcome ContactError Contact × Book
  on_only_asset d a phone email book assets (err e) o = (err e, book)
  on_only_asset d a phone email book assets (ok p) (err e) = (err e, book)
  on_only_asset d a phone email book [] (ok p) (ok q) = (err asset_required, book)
  on_only_asset d a phone email book (x ∷ []) (ok p) (ok q) =
      find_or_create_contact d (record a { channel_asset_id = x.id }) phone email book
  on_only_asset d a phone email book (x ∷ y ∷ xs) (ok p) (ok q) = (err asset_required, book)

  unfoldable pub find_or_create_on_channel :
      Draw → Account → Option String → Option String → Book → Outcome ContactError Contact × Book
  unfolding on_only_asset
  find_or_create_on_channel d a phone email book =
      on_only_asset d a phone email book (select (is_asset_of a.tenant_id a.channel) book.assets)
        (phone_of phone) (email_of email)

  -- ContactResolution: whether the identity was known and whether it is new.
  pub record ContactResolution : Type 0 where
    pub contact : Contact
    pub matched_existing : Bool
    pub identity_created : Bool

  pub decided :
      Bool → Outcome ContactError Contact × Book → Outcome ContactError ContactResolution × Book
  decided known (err e, book) = (err e, book)
  decided known (ok c, book) =
      (ok (record { contact = c; matched_existing = known; identity_created = not known }), book)

  unfoldable pub find_or_create_contact_with_decision :
      Draw
      → Account
      → Option String
      → Option String
      → Book
      → Outcome ContactError ContactResolution × Book
  unfolding decided
  find_or_create_contact_with_decision d a phone email book =
      decided
        (is_some (get_contact_identity a.tenant_id a.channel_asset_id a.external_user_id book))
        (find_or_create_contact d a phone email book)
