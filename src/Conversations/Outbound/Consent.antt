-- ===== src/Conversations/Outbound/Consent.antt =====
-- A message that needs consent is stored only under the newest consent of its contact.
use mathlib.Core.Path.{subst}
use mathlib.Core.List.{Mem, mem-cons_self, mem-cons_of_mem}
use mathlib.Core.Option.{some_inj}
use text.Mathlib.Text.{◌==◌ as str_eq}
use omni_crm_backend.Prelude.{
  ◌<◌, ◌⊎◌, sym, ◌∙◌, Bool, ap, ℕ, ◌≤◌, ◌≡◌, refl, String, true, inl, inr, Option, none, some, List,
  [], ◌∷◌, arith, Outcome, ok, err, Bool-cases, first, select, All,
}
use omni_crm_backend.Prelude.RowLaws.{All-map}
use omni_crm_backend.Conversations.{Channel, Conversation, Message, Desk, in_tenant}
use omni_crm_backend.Conversations.Messages.{MessageAuthor}
use omni_crm_backend.Conversations.Outbound.{
  ConsentStatus, same_channel, ConsentRow, newest, newer, in_scope, has_active_consent,
  is_granted_row, allowed, assert_proactive_send_allowed, send_outbound_message, send_allowed,
  is_granted, SendError,
}

-- The second row was captured no later than the first, and if at the same time has no greater
-- identifier.
abbrev pub IsOlder : ConsentRow → ConsentRow → Type 0
IsOlder c d = (d.captured_at < c.captured_at) ⊎ ((d.captured_at ≡ c.captured_at) × (d.id ≤ c.id))

abbrev pub Latest : ConsentRow → List ConsentRow → Type 0
Latest c cs = All (IsOlder c) cs

IsOlder-trans : (c d x : ConsentRow) → IsOlder c d → IsOlder d x → IsOlder c x
IsOlder-trans c d x (inl a) (inl b) = inl (omega arith)
IsOlder-trans c d x (inl a) (inr b) = inl (omega arith)
IsOlder-trans c d x (inr a) (inl b) = inl (omega arith)
IsOlder-trans c d x (inr a) (inr b) = inr (omega arith, omega arith)

newer_cases :
    (c d : ConsentRow)
    → ((newer c (some d) ≡ d) × IsOlder d c) ⊎ ((newer c (some d) ≡ c) × IsOlder c d)
unfolding newer
newer_cases c d = ground arith

newer-Latest :
    (c r : ConsentRow) (cs : List ConsentRow) (o : Option ConsentRow)
    → newest cs ≡ o
    → ((d : ConsentRow) → o ≡ some d → Latest d cs)
    → newer c o ≡ r
    → Latest r (c ∷ cs)
unfolding newer newest
newer-Latest c r [] none e ih h = subst (λ x. Latest x (c ∷ [])) h (inr (refl, omega arith), tt)
newer-Latest c r (x ∷ xs) none e ih h = absurd (cc)
newer-Latest c r cs (some d) e ih h = elim (newer_cases c d) [
  | inl (same, older) ↦ subst (λ x. Latest x (c ∷ cs)) (sym same ∙ h) (older, ih d refl)
  | inr (same, older) ↦
      subst (λ x. Latest x (c ∷ cs)) (sym same ∙ h)
        (
          inr (refl, omega arith),
          All-map (IsOlder d) (IsOlder c) (λ x. IsOlder-trans c d x older) cs (ih d refl),
        )
]

newest-Latest : (cs : List ConsentRow) (c : ConsentRow) → newest cs ≡ some c → Latest c cs
unfolding newest
newest-Latest [] c h = absurd (cc)
newest-Latest (d ∷ ds) c h = newer-Latest d c ds (newest ds) refl (λ f e. newest-Latest ds f e) (cc)

newer_either : (c r : ConsentRow) (o : Option ConsentRow) → newer c o ≡ r → (c ≡ r) ⊎ (o ≡ some r)
unfolding newer
newer_either c r none h = inl h
newer_either c r (some d) h = elim (newer_cases c d) [
  | inl (same, older) ↦ inr (ap some (sym same ∙ h))
  | inr (same, older) ↦ inl (sym same ∙ h)
]

-- The newest of the rows that meet a condition is one of them.
newest-select :
    (p : ConsentRow → Bool) (cs : List ConsentRow) (c : ConsentRow)
    → newest (select p cs) ≡ some c
    → Mem c cs × (p c ≡ true)
unfolding newest select
newest-select p [] c h = absurd (cc)
newest-select p (x ∷ xs) c h = elim (Bool-cases (p x)) [
  | inr e ↦ let (m, fits) = newest-select p xs c (rw e at h) in (mem-cons_of_mem x m, fits)
  | inl e ↦
      let chosen : newer x (newest (select p xs)) ≡ c = some_inj.0 (rw e at h) in
      elim (newer_either x c (newest (select p xs)) chosen) [
        | inl same ↦
            (subst (λ y. Mem y (x ∷ xs)) same mem-cons_self, subst (λ y. p y ≡ true) same e)
        | inr later ↦ let (m, fits) = newest-select p xs c later in (mem-cons_of_mem x m, fits)
      ]
]

-- What stands behind a message that needed consent: its conversation, and a stored consent of the
-- contact of that conversation, on its channel and for the purpose, that is granted and that is
-- the latest of the stored rows of the same scope, by time and then by identifier.
pub record Consented (tenant_id conversation_id : ℕ) (purpose : String) (consents : List ConsentRow)
    (desk : Desk) : Type 0 where
  pub conversation : Conversation
  pub found : first (in_tenant tenant_id conversation_id) desk.conversations ≡ some conversation
  pub consent : ConsentRow
  pub stored : Mem consent consents
  pub held_by : consent.tenant_id ≡ tenant_id
  pub given_by : consent.contact_id ≡ conversation.contact_id
  pub on_channel : consent.channel ≡ conversation.channel
  pub for_purpose : str_eq consent.purpose purpose ≡ true
  pub granted : consent.status ≡ ConsentStatus.granted
  pub is_latest :
      Latest consent
        (select (in_scope tenant_id conversation.contact_id conversation.channel purpose) consents)

same_channel_sound : (a b : Channel) → same_channel a b ≡ true → a ≡ b
same_channel_sound a b h = ground (arith, h)

granted_of :
    (o : Option ConsentRow)
    → is_granted_row o ≡ true
    → (c : ConsentRow) × (o ≡ some c) × (is_granted c.status ≡ true)
granted_of none h = absurd (cc)
granted_of (some c) h = (c, refl, h)

allowed_sound :
    (tenant_id : ℕ) (purpose : String) (consents : List ConsentRow) (o : Option Conversation)
    {r : Conversation}
    → allowed tenant_id purpose consents o ≡ ok r
    → (o ≡ some r) × (has_active_consent tenant_id r.contact_id r.channel purpose consents ≡ true)
unfolding allowed
allowed_sound tenant_id purpose consents none h = absurd (cc)
allowed_sound tenant_id purpose consents (some c) {r} h =
    elim (Bool-cases (has_active_consent tenant_id c.contact_id c.channel purpose consents)) [
      | inl e ↦
          let same : c ≡ r = cc (rw e at h) in
          (
            ap some same,
            subst (λ x. has_active_consent tenant_id x.contact_id x.channel purpose consents ≡ true)
                same e,
          )
      | inr e ↦ absurd (cc (rw e at h))
    ]

assert_proactive_send_allowed_sound :
    (tenant_id conversation_id : ℕ) (purpose : String) (consents : List ConsentRow) (desk : Desk)
    {c : Conversation}
    → assert_proactive_send_allowed tenant_id conversation_id purpose consents desk ≡ ok c
    → Consented tenant_id conversation_id purpose consents desk
unfolding assert_proactive_send_allowed has_active_consent
assert_proactive_send_allowed_sound tenant_id conversation_id purpose consents desk {c} h =
    let scope = select (in_scope tenant_id c.contact_id c.channel purpose) consents in
    let (found, active) =
      allowed_sound tenant_id purpose consents
        (first (in_tenant tenant_id conversation_id) desk.conversations) h in
    let (d, e, yes_granted) = granted_of (newest scope) active in
    let (m, fits) =
      newest-select (in_scope tenant_id c.contact_id c.channel purpose) consents d e in
    record {
      conversation = c;
      found = found;
      consent = d;
      stored = m;
      held_by = ground (arith, fits);
      given_by = ground (arith, fits);
      on_channel = same_channel_sound d.channel c.channel (ground (arith, fits));
      for_purpose = ground (arith, fits);
      granted = ground (arith, yes_granted);
      is_latest = newest-Latest scope d e;
    }

module _ (sha256 : String → String) where
  send_allowed_sound :
      (id tenant_id : ℕ) (body : String) (author : MessageAuthor) (key : Option String)
      (desk : Desk) (o : Outcome SendError Conversation) {m : Message}
      → (send_allowed sha256 id tenant_id body author key desk o).0 ≡ ok m
      → (c : Conversation) × (o ≡ ok c)
  unfolding send_allowed
  send_allowed_sound id tenant_id body author key desk (err e) h = absurd (cc)
  send_allowed_sound id tenant_id body author key desk (ok c) h = (c, refl)

  -- A message whose sending needs consent is accepted only for a conversation of the tenant whose
  -- contact has granted consent on the channel of the conversation and for the purpose, by a stored
  -- row that is the latest of the stored rows of the same tenant, contact, channel and purpose.
  pub send_outbound_message-Consented :
      (id tenant_id conversation_id : ℕ) (body : String) (author : MessageAuthor) (purpose : String)
      (key : Option String) (consents : List ConsentRow) (desk : Desk) {m : Message}
      → (send_outbound_message sha256 id tenant_id conversation_id body author purpose key true
          consents desk).0
        ≡ ok m
      → Consented tenant_id conversation_id purpose consents desk
  unfolding send_outbound_message
  send_outbound_message-Consented id tenant_id conversation_id body author purpose key consents desk
        h =
      let (c, e) =
        send_allowed_sound id tenant_id body author key desk
          (assert_proactive_send_allowed tenant_id conversation_id purpose consents desk) h in
      assert_proactive_send_allowed_sound tenant_id conversation_id purpose consents desk e
