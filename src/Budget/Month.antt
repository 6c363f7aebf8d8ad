-- ===== src/Budget/Month.antt =====
-- The tokens that are reserved and consumed stay within the budget of the month.
use mathlib.Core.Path.{subst}
use omni_crm_backend.Prelude.{
  true, count, update, ◌≢◌, [], ◌∷◌, ==_refl, ℕ, ◌+◌, ◌≤◌, ◌≡◌, refl, Bool, inl, inr, Option, none,
  some, List, arith, ltb, ◌==◌, Bool-cases, first, insert, All,
}
use omni_crm_backend.Prelude.RowLaws.{
  count-append, count-update_keep, count-zero_of_first, All-first, All-append, first_sound,
  first-append,
}
use omni_crm_backend.Prelude.Keys.{IsKeyed, IsKeyed-update, IsKeyed-insert, All-update_key}
use omni_crm_backend.Budget.{
  ℤ, pos, negsuc, AiTurnLimits, AiUsageLedger, of_month, new_ledger, with_reserved, reserve_in,
  reserve_of, reserve_token_budget, more, settled, settle_token_budget,
}

abbrev pub IsSingleLedger : List AiUsageLedger → Type 0
IsSingleLedger ledgers = (tenant_id month : ℕ) → count (of_month tenant_id month) ledgers ≤ 1

-- A write of tokens leaves the tenant and the month of every ledger.
write-IsSingleLedger :
    (q : AiUsageLedger → Bool) (f : AiUsageLedger → AiUsageLedger) (ledgers : List AiUsageLedger)
    → ((l : AiUsageLedger) → ((f l).tenant_id ≡ l.tenant_id) × ((f l).month ≡ l.month))
    → IsSingleLedger ledgers
    → IsSingleLedger (update q f ledgers)
write-IsSingleLedger q f ledgers keep h tenant_id month = omega (
  arith,
  h tenant_id month,
  count-update_keep (of_month tenant_id month) q f (λ l. ground (arith, keep l)) ledgers,
)

insert-IsSingleLedger :
    (id tenant_id month : ℕ) (ledgers : List AiUsageLedger)
    → first (of_month tenant_id month) ledgers ≡ none
    → IsSingleLedger ledgers
    → IsSingleLedger (insert (new_ledger id tenant_id month) ledgers)
insert-IsSingleLedger id tenant_id month ledgers missing h t m =
    elim (Bool-cases (of_month t m (new_ledger id tenant_id month))) [
      | inr off ↦ rw count-append (unfold count in rw off (omega (arith, h t m)))
      | inl on ↦ rw count-append (unfold count in rw on (omega (arith, same on)))
    ]
  where
    same : of_month t m (new_ledger id tenant_id month) ≡ true → count (of_month t m) ledgers ≡ 0
    same on =
        let at : tenant_id ≡ t = ground (arith, on) in
        let of : month ≡ m = ground (arith, on) in
        count-zero_of_first (of_month t m) ledgers (
          subst (λ k. first (of_month t k) ledgers ≡ none) of
            (subst (λ k. first (of_month k month) ledgers ≡ none) at missing))

module _ (budget : ℕ → AiTurnLimits) where
  abbrev pub IsWithin : AiUsageLedger → Type 0
  IsWithin l = l.consumed_tokens + l.reserved_tokens ≤ (budget l.tenant_id).monthly_token_budget

  -- Each ledger stays within the budget of its tenant, and a tenant has one ledger a month.
  pub record IsBudgeted (ledgers : List AiUsageLedger) : Type 0 where
    pub within : All IsWithin ledgers
    pub keyed : IsKeyed (λ l. l.id) ledgers
    pub single : IsSingleLedger ledgers

  abbrev New : ℕ → List AiUsageLedger → Type 0
  New id = All (λ l. l.id ≢ id)

  reserve_in-IsBudgeted :
      (n : ℕ) (l : AiUsageLedger) (p : AiUsageLedger → Bool) (before ledgers : List AiUsageLedger)
      → IsBudgeted before
      → IsBudgeted ledgers
      → first p ledgers ≡ some l
      → IsBudgeted (reserve_in n (budget l.tenant_id) l before ledgers).1
  unfolding reserve_in
  reserve_in-IsBudgeted n l p before ledgers old v found =
      elim (Bool-cases (
        ltb (budget l.tenant_id).monthly_token_budget
          (l.consumed_tokens + l.reserved_tokens + n))) [
            | inl e ↦ rw e old
            | inr e ↦ rw e record {
              within =
                  All-update_key (λ x. x.id) IsWithin p (with_reserved n) ledgers v.keyed found
                    (ground arith) v.within;
              keyed =
                  IsKeyed-update (λ x. x.id) (λ x. x.id == l.id) (with_reserved n) (λ x. refl)
                    ledgers v.keyed;
              single =
                  write-IsSingleLedger (λ x. x.id == l.id) (with_reserved n) ledgers
                    (λ x. (refl, refl)) v.single;
            }
          ]

  insert-IsBudgeted :
      (id tenant_id month : ℕ) (ledgers : List AiUsageLedger)
      → New id ledgers
      → first (of_month tenant_id month) ledgers ≡ none
      → IsBudgeted ledgers
      → IsBudgeted (insert (new_ledger id tenant_id month) ledgers)
  insert-IsBudgeted id tenant_id month ledgers new missing v = record {
    within =
        All-append IsWithin ledgers (new_ledger id tenant_id month ∷ []) v.within (omega arith, tt);
    keyed = IsKeyed-insert (λ x. x.id) (new_ledger id tenant_id month) ledgers new v.keyed;
    single = insert-IsSingleLedger id tenant_id month ledgers missing v.single;
  }

  inserted :
      (id tenant_id month : ℕ) (ledgers : List AiUsageLedger)
      → first (of_month tenant_id month) ledgers ≡ none
      → first (of_month tenant_id month) (insert (new_ledger id tenant_id month) ledgers)
        ≡ some (new_ledger id tenant_id month)
  inserted id tenant_id month ledgers e =
      rw first-append (rw e (unfold first in rw (==_refl tenant_id, ==_refl month)))

  reserve_of-IsBudgeted :
      (id tenant_id month n : ℕ) (ledgers : List AiUsageLedger) (o : Option AiUsageLedger)
      → New id ledgers
      → IsBudgeted ledgers
      → first (of_month tenant_id month) ledgers ≡ o
      → IsBudgeted (reserve_of id tenant_id month n (budget tenant_id) ledgers o).1
  unfolding reserve_of
  reserve_of-IsBudgeted id tenant_id month n ledgers none new v found =
      reserve_in-IsBudgeted n (new_ledger id tenant_id month) (of_month tenant_id month) ledgers
        (insert (new_ledger id tenant_id month) ledgers) v
        (insert-IsBudgeted id tenant_id month ledgers new found v)
        (inserted id tenant_id month ledgers found)
  reserve_of-IsBudgeted id tenant_id month n ledgers (some l) new v found =
      let same : l.tenant_id ≡ tenant_id =
        ground (arith, first_sound (of_month tenant_id month) ledgers found) in
      subst (λ t. IsBudgeted (reserve_in n (budget t) l ledgers ledgers).1) same
        (reserve_in-IsBudgeted n l (of_month tenant_id month) ledgers ledgers v v found)

  reserve-IsBudgeted :
      (id tenant_id month : ℕ) (n : ℤ) (ledgers : List AiUsageLedger)
      → New id ledgers
      → IsBudgeted ledgers
      → IsBudgeted (reserve_token_budget id tenant_id month n (budget tenant_id) ledgers).1
  unfolding reserve_token_budget
  reserve-IsBudgeted id tenant_id month (negsuc n) ledgers new v = v
  reserve-IsBudgeted id tenant_id month (pos n) ledgers new v =
      reserve_of-IsBudgeted id tenant_id month n ledgers (first (of_month tenant_id month) ledgers)
        new v refl

  settle-IsBudgeted :
      (p : AiUsageLedger → Bool) (l : AiUsageLedger) (reserved : ℕ) (actual : ℤ)
      (ledgers : List AiUsageLedger)
      → first p ledgers ≡ some l
      → more 0 actual ≤ reserved
      → reserved ≤ l.reserved_tokens
      → IsBudgeted ledgers
      → IsBudgeted (settle_token_budget l (pos reserved) actual ledgers).1
  unfolding settle_token_budget
  settle-IsBudgeted p l reserved (pos actual) ledgers found fits held v =
      let old : IsWithin l = All-first IsWithin p ledgers v.within found in
      record {
        within =
            All-update_key (λ x. x.id) IsWithin p (settled (pos reserved) (pos actual)) ledgers
              v.keyed found (omega arith) v.within;
        keyed =
            IsKeyed-update (λ x. x.id) (λ x. x.id == l.id) (settled (pos reserved) (pos actual))
              (λ x. refl) ledgers v.keyed;
        single =
            write-IsSingleLedger (λ x. x.id == l.id) (settled (pos reserved) (pos actual)) ledgers
              (λ x. (refl, refl)) v.single;
      }
  settle-IsBudgeted p l reserved (negsuc actual) ledgers found fits held v =
      let old : IsWithin l = All-first IsWithin p ledgers v.within found in
      record {
        within =
            All-update_key (λ x. x.id) IsWithin p (settled (pos reserved) (negsuc actual)) ledgers
              v.keyed found (omega arith) v.within;
        keyed =
            IsKeyed-update (λ x. x.id) (λ x. x.id == l.id) (settled (pos reserved) (negsuc actual))
              (λ x. refl) ledgers v.keyed;
        single =
            write-IsSingleLedger (λ x. x.id == l.id) (settled (pos reserved) (negsuc actual))
              ledgers (λ x. (refl, refl)) v.single;
      }

  -- A turn of the AI reserves tokens, whether it is refused or not; it settles a reservation that
  -- the ledger holds, and has used no more than it reserved.
  pub data Step : List AiUsageLedger → List AiUsageLedger → Type 0 where
    reserves :
        {ledgers : List AiUsageLedger} (id tenant_id month : ℕ) (n : ℤ)
        → New id ledgers
        → Step ledgers (reserve_token_budget id tenant_id month n (budget tenant_id) ledgers).1
    settles :
        {ledgers : List AiUsageLedger} (p : AiUsageLedger → Bool) (l : AiUsageLedger) (reserved : ℕ)
        (actual : ℤ)
        → first p ledgers ≡ some l
        → more 0 actual ≤ reserved
        → reserved ≤ l.reserved_tokens
        → Step ledgers (settle_token_budget l (pos reserved) actual ledgers).1

  pub data Reach (start : List AiUsageLedger) : List AiUsageLedger → Type 0 where
    here : Reach start start
    next :
        {ledgers ledgers' : List AiUsageLedger}
        → Reach start ledgers
        → Step ledgers ledgers'
        → Reach start ledgers'

  Step-IsBudgeted :
      {ledgers ledgers' : List AiUsageLedger}
      → Step ledgers ledgers'
      → IsBudgeted ledgers
      → IsBudgeted ledgers'
  Step-IsBudgeted (reserves id tenant_id month n new) v =
      reserve-IsBudgeted id tenant_id month n _ new v
  Step-IsBudgeted (settles p l reserved actual found fits held) v =
      settle-IsBudgeted p l reserved actual _ found fits held v

  -- If at the start a tenant has at most one ledger a month, what is consumed and reserved there is
  -- within the tenant's monthly budget, and no two ledgers have one identifier, the same holds
  -- after any sequence of reservations, refused or not and with fresh identifiers, and of
  -- settlements of what a ledger holds as reserved that use no more than they reserved.
  pub Reach-IsBudgeted :
      {start ledgers : List AiUsageLedger}
      → Reach start ledgers
      → IsBudgeted start
      → IsBudgeted ledgers
  Reach-IsBudgeted here v = v
  Reach-IsBudgeted (next r s) v = Step-IsBudgeted s (Reach-IsBudgeted r v)
