-- ===== src/Status/Paths.antt =====
-- What the transition table allows over whole runs of a job: sequences of validated transitions.
use autosys_clone.Prelude.{
  ◌≡◌, refl, ◌⊎◌, inl, inr, Bool, true, false, ◌||◌, List, [], ◌∷◌, arith, Bool-cases, length, ◌≤◌,
}
use autosys_clone.Status.{
  JobStatus, running, starting, success, failure, terminated, on_ice, inactive, activated, restart,
  on_hold, on_noexec, value, eq_status, mem_status, status, can_transition,
}

-- The statuses in `path`, the end included, are entered one after another from `s` by validated
-- transitions.
pub data Walk : JobStatus → List JobStatus → JobStatus → Type 0 where
  stay : {s : JobStatus} → Walk s [] s
  step :
      {s t u : JobStatus} {path : List JobStatus}
      → can_transition (status s) t ≡ true
      → Walk t path u
      → Walk s (t ∷ path) u

-- The statuses in which a job is live under the transitions of the table, that no walk from
-- INACTIVE leaves.
abbrev pub IsLive : JobStatus → Type 0
unfolding value
IsLive s =
    mem_status s (
      running ∷ starting ∷ success ∷ failure ∷ terminated ∷ on_ice ∷ inactive ∷ activated ∷ restart
      ∷ on_hold ∷ on_noexec ∷ [])
    ≡ true

-- Whether a job that has been in status `s` has run its command or was exempted from it.
abbrev pub has_run : JobStatus → Bool
unfolding value
has_run s = eq_status s running || eq_status s on_noexec

success_entry :
    (s t : JobStatus)
    → can_transition (status s) t ≡ true
    → has_run s ≡ false
    → (has_run t ≡ true) ⊎ (has_run t ≡ false) × (eq_status t success ≡ false)
unfolding can_transition
success_entry running t h n = cc
success_entry _ t h n = ground arith

terminated_entry :
    (s t : JobStatus)
    → can_transition (status s) t ≡ true
    → eq_status s running ≡ false
    → eq_status t terminated ≡ false
unfolding can_transition
terminated_entry running t h n = cc
terminated_entry _ t h n = ground arith

IsLive-entry : (s t : JobStatus) → can_transition (status s) t ≡ true → IsLive s → IsLive t
unfolding can_transition
IsLive-entry running t h l = ground arith
IsLive-entry _ t h l = ground arith

-- In the transition table, every walk to SUCCESS from a status other than SUCCESS, RUNNING and
-- ON_NOEXEC enters RUNNING or ON_NOEXEC. The box manager and forced changes of a status do not ask
-- the table.
pub Walk-success :
    {s u : JobStatus} {path : List JobStatus}
    → has_run s ≡ false
    → eq_status s success ≡ false
    → Walk s path u
    → u ≡ success
    → (mem_status running path ≡ true) ⊎ (mem_status on_noexec path ≡ true)
unfolding value
Walk-success h n stay e = absurd (ground arith)
Walk-success {s} h n (step {t = t} c w) e = elim (success_entry s t c h) [
  | inl ran ↦ ground arith
  | inr (fresh, other) ↦ ground (arith, Walk-success fresh other w e)
]

-- In the transition table, every walk to TERMINATED from a status other than RUNNING and TERMINATED
-- enters RUNNING. The killing of a box's children does not ask the table.
pub Walk-terminated :
    {s u : JobStatus} {path : List JobStatus}
    → eq_status s running ≡ false
    → eq_status s terminated ≡ false
    → Walk s path u
    → u ≡ terminated
    → mem_status running path ≡ true
unfolding value
Walk-terminated h n stay e = absurd (ground arith)
Walk-terminated {s} h n (step {t = t} c w) e = elim (Bool-cases (eq_status t running)) [
  | inl ran ↦ ground arith
  | inr other ↦ ground (arith, Walk-terminated other (terminated_entry s t c h) w e)
]

-- Every walk from one of the eleven live statuses, INACTIVE among them, ends in one of them, and so
-- in none of WAIT_REPLY, QUE_WAIT, PEND_MACH, RESWAIT, SUSPENDED and REFRESH_DEPENDENCIES.
pub Walk-IsLive : {s u : JobStatus} {path : List JobStatus} → IsLive s → Walk s path u → IsLive u
Walk-IsLive l stay = l
Walk-IsLive {s} l (step {t = t} c w) = Walk-IsLive (IsLive-entry s t c l) w

-- From every status a job can come back to INACTIVE in at most two validated transitions.
pub Walk-inactive :
    (s : JobStatus) → (path : List JobStatus) × Walk s path inactive × (length path ≤ 2)
unfolding can_transition
Walk-inactive inactive = ([], stay, omega arith)
Walk-inactive running = (failure ∷ inactive ∷ [], step refl (step refl stay), omega arith)
Walk-inactive _ = (inactive ∷ [], step refl stay, omega arith)
