-- ===== src/Opportunities/Rotation.antt =====
-- app/services/round_robin.py: the commercial agents of a tenant take turns.
use omni_crm_backend.Prelude.{
  ℕ, zero, suc, ◌+◌, ◌%◌, Bool, true, false, ◌&&◌, Option, none, some, List, [], ◌∷◌, ◌==◌, leb,
  if◌then◌else◌, first, select, update, insert, length, map,
}
use omni_crm_backend.Identity.{Membership, MembershipStatus, Role}

pub record AssignmentRotationState : Type 0 where
  pub tenant_id : ℕ
  pub last_assigned_user_id : Option ℕ

abbrev pub is_commercial : Role → Bool
is_commercial Role.agente_comercial = true
is_commercial _ = false

abbrev pub is_active : MembershipStatus → Bool
is_active MembershipStatus.active = true
is_active _ = false

abbrev pub is_agent_of : ℕ → Membership → Bool
is_agent_of tenant_id m = m.tenant_id == tenant_id && (is_commercial m.role && is_active m.status)

-- ORDER BY user_id ASC
abbrev pub place : ℕ → List ℕ → List ℕ
place n [] = n ∷ []
place n (m ∷ ms) = if leb n m then n ∷ m ∷ ms else m ∷ place n ms

abbrev pub in_order : List ℕ → List ℕ
in_order [] = []
in_order (n ∷ ns) = place n (in_order ns)

unfoldable pub agent_ids : ℕ → List Membership → List ℕ
agent_ids tenant_id memberships =
    in_order (map (λ m. m.user_id) (select (is_agent_of tenant_id) memberships))

abbrev pub contains : ℕ → List ℕ → Bool
contains n [] = false
contains n (m ∷ ms) = if m == n then true else contains n ms

-- ids.index(n), for an n that is there
abbrev pub index : ℕ → List ℕ → ℕ
index n [] = 0
index n (m ∷ ms) = if m == n then 0 else suc (index n ms)

abbrev pub get_or : ℕ → List ℕ → ℕ → ℕ
get_or d [] i = d
get_or d (m ∷ ms) zero = m
get_or d (m ∷ ms) (suc i) = get_or d ms i

-- ids[(ids.index(last) + 1) % len(ids)] if last in ids, else the first, `id`
unfoldable pub after : ℕ → List ℕ → ℕ → ℕ
after id ids last =
    if contains last ids then get_or id ids ((index last ids + 1) % length ids) else id

-- Of a list that is not empty, `id` its first.
unfoldable pub selected : ℕ → List ℕ → Option ℕ → ℕ
unfolding after
selected id ids none = id
selected id ids (some last) = after id (id ∷ ids) last

abbrev pub is_state : ℕ → AssignmentRotationState → Bool
is_state tenant_id s = s.tenant_id == tenant_id

abbrev pub turned : ℕ → AssignmentRotationState → AssignmentRotationState
turned id s = record s { last_assigned_user_id = some id }

unfoldable pub turn_of :
    ℕ
    → ℕ
    → List ℕ
    → List AssignmentRotationState
    → Option AssignmentRotationState
    → ℕ × List AssignmentRotationState
turn_of tenant_id id ids rotation none =
    (id, insert (record { tenant_id = tenant_id; last_assigned_user_id = some id }) rotation)
turn_of tenant_id id ids rotation (some s) =
    let chosen = selected id ids s.last_assigned_user_id in
    (chosen, update (is_state s.tenant_id) (turned chosen) rotation)

abbrev pub given_turn : ℕ × List AssignmentRotationState → Option ℕ × List AssignmentRotationState
given_turn (id, rotation) = (some id, rotation)

unfoldable pub next_of :
    ℕ → List AssignmentRotationState → List ℕ → Option ℕ × List AssignmentRotationState
unfolding turn_of selected
next_of tenant_id rotation [] = (none, rotation)
next_of tenant_id rotation (id ∷ ids) =
    given_turn (turn_of tenant_id id ids rotation (first (is_state tenant_id) rotation))

unfoldable pub next_round_robin_agent :
    ℕ → List Membership → List AssignmentRotationState → Option ℕ × List AssignmentRotationState
unfolding next_of
next_round_robin_agent tenant_id memberships rotation =
    next_of tenant_id rotation (agent_ids tenant_id memberships)
