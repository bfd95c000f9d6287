-- ===== src/Status.antt =====
-- Job statuses (autosys/models/enums.py) and the transition table that guards the status column
-- (autosys/scheduler/state_machine.py).
pub mod Paths
use autosys_clone.Prelude.{
  ℕ, zero, suc, ◌≡◌, arith, Bool, true, false, ◌||◌, Option, none, some, List, [], ◌∷◌, ◌==◌,
}

pub data JobStatus : Type 0 where
  running starting success failure terminated on_ice inactive activated restart : JobStatus
  on_hold que_wait wait_reply pend_mach reswait on_noexec suspended : JobStatus
  refresh_dependencies : JobStatus

-- The integer of each member of the IntEnum.
unfoldable pub value : JobStatus → ℕ
value running = 1
value starting = 3
value success = 4
value failure = 5
value terminated = 6
value on_ice = 7
value inactive = 8
value activated = 9
value restart = 10
value on_hold = 11
value que_wait = 12
value wait_reply = 13
value pend_mach = 14
value reswait = 15
value on_noexec = 16
value suspended = 17
value refresh_dependencies = 99

-- Equality of two members.
abbrev pub eq_status : JobStatus → JobStatus → Bool
unfolding value
eq_status s t = value s == value t

pub eq_of_eq_status : (s t : JobStatus) → eq_status s t ≡ true → s ≡ t
unfolding value
eq_of_eq_status running t h = ground arith
eq_of_eq_status _ t h = ground arith

abbrev pub mem_status : JobStatus → List JobStatus → Bool
unfolding value
mem_status s [] = false
mem_status s (t ∷ ts) = eq_status s t || mem_status s ts

-- What the integer column `status` holds, behind its NULL: the value of a member, or an integer
-- that no member has, for which `_norm_status` gives its digits.
pub data StatusValue : Type 0 where
  status : JobStatus → StatusValue
  unlisted : ℕ → StatusValue

abbrev pub eq_value : StatusValue → JobStatus → Bool
unfolding value
eq_value (status s) t = eq_status s t
eq_value (unlisted n) t = false

-- `_norm_status`: NULL reads as INACTIVE.
unfoldable pub norm_status : Option StatusValue → StatusValue
norm_status none = status inactive
norm_status (some v) = v

-- `row.status or INACTIVE`: NULL and the integer 0 are false.
unfoldable pub or_inactive : Option StatusValue → StatusValue
or_inactive (some (status s)) = status s
or_inactive (some (unlisted (suc n))) = unlisted (suc n)
or_inactive _ = status inactive

-- `row.status == JobStatus.X.value` on the nullable column.
unfoldable pub column_is : Option StatusValue → JobStatus → Bool
unfolding value
column_is none t = false
column_is (some v) t = eq_value v t

-- `_norm_status(row.status) in {...}`.
abbrev pub norm_in : Option StatusValue → List JobStatus → Bool
unfolding value norm_status
norm_in v [] = false
norm_in v (t ∷ ts) = eq_value (norm_status v) t || norm_in v ts

-- VALID_TRANSITIONS.
unfoldable pub valid_transitions : JobStatus → List JobStatus
valid_transitions inactive = activated ∷ starting ∷ on_hold ∷ on_ice ∷ on_noexec ∷ []
valid_transitions activated = running ∷ starting ∷ inactive ∷ on_hold ∷ failure ∷ on_noexec ∷ []
valid_transitions starting = running ∷ failure ∷ inactive ∷ []
valid_transitions running = success ∷ failure ∷ terminated ∷ []
valid_transitions success = inactive ∷ activated ∷ starting ∷ on_noexec ∷ []
valid_transitions failure = inactive ∷ restart ∷ activated ∷ starting ∷ on_noexec ∷ []
valid_transitions terminated = inactive ∷ starting ∷ on_noexec ∷ []
valid_transitions restart = starting ∷ inactive ∷ failure ∷ []
valid_transitions on_hold = inactive ∷ activated ∷ on_noexec ∷ []
valid_transitions on_ice = inactive ∷ []
valid_transitions wait_reply = running ∷ failure ∷ inactive ∷ starting ∷ []
valid_transitions que_wait = starting ∷ inactive ∷ []
valid_transitions refresh_dependencies = inactive ∷ starting ∷ activated ∷ []
valid_transitions pend_mach = starting ∷ inactive ∷ []
valid_transitions reswait = starting ∷ inactive ∷ []
valid_transitions on_noexec = inactive ∷ success ∷ []
valid_transitions suspended = inactive ∷ starting ∷ running ∷ []

-- `VALID_TRANSITIONS.get(from, frozenset())`: an unlisted status has no transition.
unfoldable pub can_transition : StatusValue → JobStatus → Bool
unfolding valid_transitions value
can_transition (status s) t = mem_status t (valid_transitions s)
can_transition (unlisted n) t = false

-- `validate_transition`: true where it returns, false where it raises InvalidTransitionError.
unfoldable pub validate_transition : Bool → StatusValue → JobStatus → Bool
unfolding can_transition
validate_transition force from to = force || can_transition from to

abbrev pub terminal_states : List JobStatus
terminal_states = success ∷ failure ∷ terminated ∷ []

abbrev pub startable_states : List JobStatus
startable_states = inactive ∷ success ∷ failure ∷ terminated ∷ []

unfoldable pub is_terminal : Option StatusValue → Bool
unfolding value norm_status
is_terminal v = norm_in v terminal_states

unfoldable pub is_startable : Option StatusValue → Bool
unfolding value norm_status
is_startable v = norm_in v startable_states
