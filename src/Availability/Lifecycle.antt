-- ===== src/Availability/Lifecycle.antt =====
-- availability/availability-contracts/contract/state.go and lifecycle.go: which lifecycle state may
-- follow which.
use cipher.Prelude.{
  Bool, true, false, not, ◌||◌, ◌≡◌, ◌↔◌, refl, Result, ok, err, if◌then◌else◌, arith,
}
use cipher.Availability.Types.{
  ContractState, proposed, agreed, transferring, ready, active, completed, expired, terminated,
  disputed, other, state_eq,
}

-- isValidState
unfoldable pub is_valid_state : ContractState → Bool
is_valid_state other = false
is_valid_state _ = true

-- isTerminalState, the package's own copy of `IsTerminal`
unfoldable pub is_terminal_state : ContractState → Bool
is_terminal_state s =
    state_eq s completed || state_eq s expired || state_eq s terminated || state_eq s disputed

-- The `switch from` of CanTransition; the last clause is the `return false` behind it.
next_states : ContractState → ContractState → Bool
next_states proposed to = state_eq to agreed || state_eq to terminated || state_eq to disputed
next_states agreed to = state_eq to transferring || state_eq to terminated || state_eq to disputed
next_states transferring to = state_eq to ready || state_eq to terminated || state_eq to disputed
next_states ready to = state_eq to active || state_eq to terminated || state_eq to disputed
next_states active to =
    state_eq to completed || state_eq to expired || state_eq to terminated || state_eq to disputed
next_states _ to = false

-- CanTransition
unfoldable pub can_transition : ContractState → ContractState → Bool
unfolding is_valid_state is_terminal_state next_states
can_transition from to =
    if not (is_valid_state from) || not (is_valid_state to) || is_terminal_state from
    then false
    else next_states from to

pub data TransitionError : Type 0 where
  invalid_transition : ContractState → ContractState → TransitionError

-- Transition
unfoldable pub transition : ContractState → ContractState → Result TransitionError ContractState
unfolding can_transition
transition from to =
    if not (can_transition from to) then err (invalid_transition from to) else ok to

-- The states that a contract may still leave.
pub data IsLive : ContractState → Type 0 where
  proposed_live : IsLive proposed
  agreed_live : IsLive agreed
  transferring_live : IsLive transferring
  ready_live : IsLive ready
  active_live : IsLive active

-- The lifecycle diagram of the protocol: the happy path, and the ways out of every live state.
pub data Follows : ContractState → ContractState → Type 0 where
  agree : Follows proposed agreed
  transfer : Follows agreed transferring
  prepare : Follows transferring ready
  activate : Follows ready active
  complete : Follows active completed
  expire : Follows active expired
  terminate : {s : ContractState} → IsLive s → Follows s terminated
  dispute : {s : ContractState} → IsLive s → Follows s disputed

ruleset diagram = (
  agree, transfer, prepare, activate, complete, expire, terminate, dispute, proposed_live,
  agreed_live, transferring_live, ready_live, active_live,
)

-- An accepted transition is an edge.
pub transition-Follows :
    (from to : ContractState) {s : ContractState}
    → transition from to ≡ ok s
    → Follows from s × (s ≡ to)
unfolding transition
transition-Follows from to h = grind (arith, diagram)

live_leaves :
    {s : ContractState}
    → IsLive s
    → (transition s terminated ≡ ok terminated) × (transition s disputed ≡ ok disputed)
unfolding transition
live_leaves proposed_live = (refl, refl)
live_leaves agreed_live = (refl, refl)
live_leaves transferring_live = (refl, refl)
live_leaves ready_live = (refl, refl)
live_leaves active_live = (refl, refl)

-- An edge is accepted.
Follows-transition : {from to : ContractState} → Follows from to → transition from to ≡ ok to
unfolding transition
Follows-transition agree = refl
Follows-transition transfer = refl
Follows-transition prepare = refl
Follows-transition activate = refl
Follows-transition complete = refl
Follows-transition expire = refl
Follows-transition (terminate l) = (live_leaves l).0
Follows-transition (dispute l) = (live_leaves l).1

-- `Transition` succeeds exactly along the edges of the diagram, and then returns its target.
pub transition-Follows_iff :
    (from to s : ContractState) → (transition from to ≡ ok s) ↔ (Follows from s × (s ≡ to))
transition-Follows_iff from to s =
    (λ h. transition-Follows from to h, λ (f, e). rw (← e) (Follows-transition f))
