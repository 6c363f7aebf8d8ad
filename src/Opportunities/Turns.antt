-- ===== src/Opportunities/Turns.antt =====
-- The agents of a tenant take turns, each once in a round.
use mathlib.Core.Path.{subst}
use mathlib.Core.List.{append_assoc}
use omni_crm_backend.Prelude.{
  ℕ, zero, suc, ◌+◌, ◌%◌, ◌<◌, ◌≡◌, ◌≢◌, refl, sym, ap, ◌∙◌, true, false, inl, inr, Option, some,
  List, [], ◌∷◌, ◌++◌, arith, ◌==◌, ==_refl, Bool-cases, first, update, length, All, map,
}
use omni_crm_backend.Prelude.RowLaws.{first-update}
use omni_crm_backend.Identity.{Membership}
use omni_crm_backend.Opportunities.Rotation.{
  AssignmentRotationState, after, contains, index, get_or, selected, is_state, turned, turn_of,
  next_of, next_round_robin_agent, agent_ids,
}

abbrev pub IsDistinct : List ℕ → Type 0
IsDistinct [] = Unit
IsDistinct (x ∷ xs) = All (λ y. y ≢ x) xs × IsDistinct xs

length-append : (xs ys : List ℕ) → length (xs ++ ys) ≡ length xs + length ys
length-append [] ys = omega arith
length-append (x ∷ xs) ys = omega (arith, length-append xs ys)

All-middle : (P : ℕ → Type 0) (pre : List ℕ) (x : ℕ) (post : List ℕ) → All P (pre ++ x ∷ post) → P x
All-middle P [] x post h = h.0
All-middle P (y ∷ pre) x post h = All-middle P pre x post h.1

index_middle :
    (pre : List ℕ) (x : ℕ) (post : List ℕ)
    → IsDistinct (pre ++ x ∷ post)
    → index x (pre ++ x ∷ post) ≡ length pre
index_middle [] x post d = rw (==_refl x)
index_middle (y ∷ pre) x post d =
    let ne : x ≢ y = All-middle (λ z. z ≢ y) pre x post d.0 in
    let miss : (y == x) ≡ false = ground (arith, ne) in
    rw miss (ap suc (index_middle pre x post d.1))

contains_middle : (pre : List ℕ) (x : ℕ) (post : List ℕ) → contains x (pre ++ x ∷ post) ≡ true
contains_middle [] x post = rw (==_refl x)
contains_middle (y ∷ pre) x post = elim (Bool-cases (y == x)) [
  | inl e ↦ rw e
  | inr e ↦ rw e (contains_middle pre x post)
]

get_middle :
    (d : ℕ) (pre : List ℕ) (x y : ℕ) (post : List ℕ)
    → get_or d (pre ++ x ∷ y ∷ post) (suc (length pre)) ≡ y
get_middle d [] x y post = refl
get_middle d (z ∷ pre) x y post = get_middle d pre x y post

small_mod : (a b : ℕ) → a < b → a % b ≡ a
small_mod a b h = grind arith

-- Behind an agent in the middle comes the next one of the list, behind the last the first.
after-middle :
    (id : ℕ) (pre : List ℕ) (x y : ℕ) (post : List ℕ)
    → IsDistinct (pre ++ x ∷ y ∷ post)
    → after id (pre ++ x ∷ y ∷ post) x ≡ y
unfolding after
after-middle id pre x y post d =
    let at : (index x (pre ++ x ∷ y ∷ post) + 1) % length (pre ++ x ∷ y ∷ post) ≡ suc (length pre) =
      rw (index_middle pre x (y ∷ post) d) (
        rw (length-append pre (x ∷ y ∷ post)) (
          small_mod (length pre + 1) (length pre + length (x ∷ y ∷ post)) (omega arith)
          ∙ omega arith)) in
    rw (contains_middle pre x (y ∷ post)) (rw at (get_middle id pre x y post))

get_first :
    (d h : ℕ) (ids : List ℕ) (pre : List ℕ) (x : ℕ)
    → pre ++ x ∷ [] ≡ h ∷ ids
    → get_or d (pre ++ x ∷ []) 0 ≡ h
get_first d h ids pre x e = rw e

full_mod : (a b : ℕ) → 0 < b → a + 1 ≡ b → (a + 1) % b ≡ 0
full_mod a b h e = grind arith

after-final :
    (id h : ℕ) (ids pre : List ℕ) (x : ℕ)
    → IsDistinct (pre ++ x ∷ [])
    → pre ++ x ∷ [] ≡ h ∷ ids
    → after id (pre ++ x ∷ []) x ≡ h
unfolding after
after-final id h ids pre x d e =
    let at : (index x (pre ++ x ∷ []) + 1) % length (pre ++ x ∷ []) ≡ 0 =
      rw (index_middle pre x [] d) (
        rw (length-append pre (x ∷ []))
          (full_mod (length pre) (length pre + 1) (omega arith) refl)) in
    rw (contains_middle pre x []) (rw at (get_first id h ids pre x e))

module _ (id : ℕ) (ids : List ℕ) (distinct : IsDistinct (id ∷ ids)) where
  -- The agents of so many turns, behind `x`.
  abbrev order : ℕ → ℕ → List ℕ
  order zero x = []
  order (suc n) x = after id (id ∷ ids) x ∷ order n (after id (id ∷ ids) x)

  step_middle :
      (pre : List ℕ) (x y : ℕ) (post : List ℕ)
      → id ∷ ids ≡ pre ++ x ∷ y ∷ post
      → after id (id ∷ ids) x ≡ y
  step_middle pre x y post e =
      subst (λ l. after id l x ≡ y) (sym e)
        (after-middle id pre x y post (subst IsDistinct e distinct))

  step_final : (pre : List ℕ) (x : ℕ) → id ∷ ids ≡ pre ++ x ∷ [] → after id (id ∷ ids) x ≡ id
  step_final pre x e =
      subst (λ l. after id l x ≡ id) (sym e)
        (after-final id id ids pre x (subst IsDistinct e distinct) (sym e))

  -- The turns to the end of the list, one for its first agent, and `m`.
  abbrev turns_left : List ℕ → ℕ → ℕ
  turns_left [] m = suc m
  turns_left (y ∷ post) m = suc (turns_left post m)

  turns_left_size : (post : List ℕ) (m : ℕ) → turns_left post m ≡ length post + suc m
  turns_left_size [] m = omega arith
  turns_left_size (y ∷ post) m = omega (arith, turns_left_size post m)

  shift :
      (pre : List ℕ) (x y : ℕ) (post : List ℕ)
      → id ∷ ids ≡ pre ++ x ∷ y ∷ post
      → id ∷ ids ≡ (pre ++ x ∷ []) ++ y ∷ post
  shift pre x y post e = e ∙ sym (append_assoc pre (x ∷ []) (y ∷ post))

  to_end :
      (pre : List ℕ) (x : ℕ) (post : List ℕ) (m : ℕ)
      → id ∷ ids ≡ pre ++ x ∷ post
      → order (turns_left post m) x ≡ post ++ id ∷ order m id
  to_end pre x [] m e = rw (step_final pre x e)
  to_end pre x (y ∷ post) m e =
      rw (step_middle pre x y post e)
        (ap (λ l. y ∷ l) (to_end (pre ++ x ∷ []) y post m (shift pre x y post e)))

  stretch :
      (pre : List ℕ) (x : ℕ) (part post : List ℕ)
      → id ∷ ids ≡ pre ++ x ∷ (part ++ post)
      → order (length part) x ≡ part
  stretch pre x [] post e = refl
  stretch pre x (y ∷ part) post e =
      rw (step_middle pre x y (part ++ post) e)
        (ap (λ l. y ∷ l) (stretch (pre ++ x ∷ []) y part post (shift pre x y (part ++ post) e)))

  round_of :
      (pre : List ℕ) (x : ℕ) (post part : List ℕ)
      → id ∷ ids ≡ pre ++ x ∷ post
      → pre ++ x ∷ [] ≡ id ∷ part
      → order (length (id ∷ ids)) x ≡ post ++ (pre ++ x ∷ [])
  round_of pre x post part e w =
      let all : id ∷ ids ≡ id ∷ (part ++ post) =
        e ∙ sym (append_assoc pre (x ∷ []) post) ∙ ap (λ l. l ++ post) w in
      let size : length (id ∷ ids) ≡ turns_left post (length part) =
        omega (arith, ap length all, length-append part post, turns_left_size post (length part)) in
      subst (λ n. order n x ≡ post ++ (pre ++ x ∷ [])) (sym size)
        (to_end pre x post (length part) e
          ∙ ap (λ l. post ++ id ∷ l) (stretch [] id part post all)
          ∙ ap (λ l. post ++ l) (sym w))

  round_from :
      (pre : List ℕ) (x : ℕ) (post : List ℕ)
      → id ∷ ids ≡ pre ++ x ∷ post
      → order (length (id ∷ ids)) x ≡ post ++ (pre ++ x ∷ [])
  round_from [] x post e = let same : id ≡ x = cc in round_of [] x post [] e (rw same)
  round_from (h ∷ pre) x post e =
      let same : id ≡ h = cc in round_of (h ∷ pre) x post (pre ++ x ∷ []) e (rw same)

module _ (tenant_id : ℕ) where
  -- The agents that consecutive calls give, on one list of agents.
  abbrev pub turns : ℕ → List ℕ → List AssignmentRotationState → List (Option ℕ)
  turns zero ids rotation = []
  turns (suc n) ids rotation =
      let (agent, rotation') = next_of tenant_id rotation ids in agent ∷ turns n ids rotation'

  -- The state of the tenant is found again with the agent that was chosen.
  turned_found :
      (chosen : ℕ) (rotation : List AssignmentRotationState) (s : AssignmentRotationState)
      → first (is_state tenant_id) rotation ≡ some s
      → first (is_state tenant_id) (update (is_state s.tenant_id) (turned chosen) rotation)
        ≡ some (turned chosen s)
  turned_found chosen rotation s found =
      rw
        (first-update (is_state tenant_id) (is_state s.tenant_id) (turned chosen)
          (λ x. ground arith) rotation)
        (rw found (rw (==_refl s.tenant_id)))

  turns-order :
      (id : ℕ) (ids : List ℕ) (distinct : IsDistinct (id ∷ ids)) (n x : ℕ)
      (rotation : List AssignmentRotationState) (s : AssignmentRotationState)
      → first (is_state tenant_id) rotation ≡ some s
      → s.last_assigned_user_id ≡ some x
      → turns n (id ∷ ids) rotation ≡ map some (order id ids distinct n x)
  unfolding next_of turn_of selected
  turns-order id ids distinct zero x rotation s found last = refl
  turns-order id ids distinct (suc n) x rotation s found last = rw found (
      rw last (
        ap (λ l. some (after id (id ∷ ids) x) ∷ l)
          (turns-order id ids distinct n (after id (id ∷ ids) x)
            (update (is_state s.tenant_id) (turned (after id (id ∷ ids) x)) rotation)
            (turned (after id (id ∷ ids) x) s)
            (turned_found (after id (id ∷ ids) x) rotation s found) refl)))

  not_empty : (pre : List ℕ) (x : ℕ) (post : List ℕ) → pre ++ x ∷ post ≢ []
  not_empty [] x post e = cc
  not_empty (y ∷ pre) x post e = cc

  turns_round :
      (l pre : List ℕ) (x : ℕ) (post : List ℕ) (rotation : List AssignmentRotationState)
      (s : AssignmentRotationState)
      → IsDistinct l
      → l ≡ pre ++ x ∷ post
      → first (is_state tenant_id) rotation ≡ some s
      → s.last_assigned_user_id ≡ some x
      → turns (length l) l rotation ≡ map some (post ++ (pre ++ x ∷ []))
  turns_round [] pre x post rotation s d e found last = absurd (not_empty pre x post (sym e))
  turns_round (id ∷ ids) pre x post rotation s d e found last =
      turns-order id ids d (length (id ∷ ids)) x rotation s found last
      ∙ ap (map some) (round_from id ids d pre x post e)

  -- The agents that so many calls give, one after the other, while the memberships stay.
  abbrev pub agents : ℕ → List Membership → List AssignmentRotationState → List (Option ℕ)
  agents zero memberships rotation = []
  agents (suc n) memberships rotation =
      let (agent, rotation') = next_round_robin_agent tenant_id memberships rotation in
      agent ∷ agents n memberships rotation'

  agents-eq-turns :
      (n : ℕ) (memberships : List Membership) (rotation : List AssignmentRotationState)
      → agents n memberships rotation ≡ turns n (agent_ids tenant_id memberships) rotation
  unfolding next_round_robin_agent
  agents-eq-turns zero memberships rotation = refl
  agents-eq-turns (suc n) memberships rotation =
      ap (λ l. (next_of tenant_id rotation (agent_ids tenant_id memberships)).0 ∷ l)
        (agents-eq-turns n memberships
          (next_of tenant_id rotation (agent_ids tenant_id memberships)).1)

  -- While the active commercial agents of a tenant stay the same, each with one membership, as many
  -- calls as there are agents give every agent one turn: those behind the last one in the order of
  -- their identifiers, then those before it, then the last one itself.
  pub fair_round :
      (memberships : List Membership) (pre : List ℕ) (x : ℕ) (post : List ℕ)
      (rotation : List AssignmentRotationState) (s : AssignmentRotationState)
      → IsDistinct (agent_ids tenant_id memberships)
      → agent_ids tenant_id memberships ≡ pre ++ x ∷ post
      → first (is_state tenant_id) rotation ≡ some s
      → s.last_assigned_user_id ≡ some x
      → agents (length (agent_ids tenant_id memberships)) memberships rotation
        ≡ map some (post ++ (pre ++ x ∷ []))
  fair_round memberships pre x post rotation s d e found last =
      agents-eq-turns (length (agent_ids tenant_id memberships)) memberships rotation
      ∙ turns_round (agent_ids tenant_id memberships) pre x post rotation s d e found last
