-- ===== src/Alarm/Fresh.antt =====
-- No alarm is raised twice (`_has_active_alarm` and `evaluate` of
-- autosys/notifications/alarm_manager.py).
use autosys_clone.Prelude.{
  eq_text, eq_text_self, ◌⊎◌, inl, inr, any, subst, ℕ, ◌≡◌, refl, sym, ◌∙◌, Bool, true, false, not,
  ◌&&◌, Option, none, some, List, [], ◌∷◌, ◌++◌, Text, arith, All, if◌then◌else◌,
}
use autosys_clone.Status.{StatusValue}
use autosys_clone.Condition.Eval.{Time}
use autosys_clone.Alarm.{
  AlarmType, Alarm, Board, has_active_alarm, eq_run, eq_type, is_active, raise_alarm, raise_if,
  auto_resolve, check_jobs, evaluate,
}
use autosys_clone.Alarm.Checks.{check_jobs-keeps, later_checks-keeps}

-- An active alarm of the same job and type, and of the same run where one is named.
Repeats : Text → AlarmType → Option ℕ → Alarm → Type 0
Repeats name type run a =
    (a.job_name ≡ name)
    × (a.alarm_type ≡ type)
    × (a.cleared_at ≡ none)
    × ((run ≡ none) ⊎ (a.run_id ≡ run))

-- None of the rows `base` is an active alarm that the alarm would repeat, and it is active itself.
pub IsFresh : Board → Alarm → Type 0
IsFresh base a =
    All (λ old. Repeats a.job_name a.alarm_type a.run_id old → ⊥) base.alarms
    × (a.cleared_at ≡ none)

eq_run-Repeats : (run other : Option ℕ) → (run ≡ none) ⊎ (other ≡ run) → eq_run run other ≡ true
eq_run-Repeats none other h = refl
eq_run-Repeats (some n) other (inl h) = absurd cc
eq_run-Repeats (some n) other (inr h) = rw (h) (ground arith)

Repeats-active :
    (name : Text) (type : AlarmType) (run : Option ℕ) (a : Alarm)
    → Repeats name type run a
    → (eq_text a.job_name name && eq_type a.alarm_type type && is_active a && eq_run run a.run_id)
      ≡ true
unfolding Repeats
Repeats-active name type run a (n, t, c, r) =
    rw (eq_run-Repeats run a.run_id r) (rw (n, t, c, eq_text_self name) (ground arith))

absent :
    (name : Text) (type : AlarmType) (run : Option ℕ) (alarms : List Alarm)
    → any
        (λ a.
          eq_text a.job_name name
          && eq_type a.alarm_type type
          && is_active a
          && eq_run run a.run_id)
        alarms
      ≡ false
    → All (λ old. Repeats name type run old → ⊥) alarms
absent name type run [] h = tt
absent name type run (a ∷ alarms) h = (
  λ r. absurd (ground (arith, Repeats-active name type run a r)),
  absent name type run alarms (ground arith),
)

-- The rows of the alarms are as they were, and those that were added are fresh.
Adds : Board → Board → Type 0
Adds base b = (b.alarms ≡ base.alarms) × All (IsFresh base) b.added

All-append {ℓ} :
    {A : Type ℓ} (P : A → Type 0) (xs ys : List A) → All P xs → All P ys → All P (xs ++ ys)
All-append P [] ys h k = k
All-append P (x ∷ xs) ys (h, hs) k = (h, All-append P xs ys hs k)

pub has_active_alarm-alarms :
    (base b : Board) (name : Text) (type : AlarmType) (run : Option ℕ)
    → b.alarms ≡ base.alarms
    → has_active_alarm base name type run ≡ has_active_alarm b name type run
unfolding has_active_alarm
has_active_alarm-alarms base b name type run e = rw (e) refl

raise_if-Adds :
    (base : Board) (due : Bool) (now : Time) (name : Text) (type : AlarmType) (run : Option ℕ)
    (at : Option StatusValue) (b : Board)
    → Adds base b
    → Adds base (raise_if due now name type run at b)
unfolding raise_if raise_alarm Adds IsFresh has_active_alarm
raise_if-Adds base due now name type run at b (e, h) =
    go (due && not (has_active_alarm b name type run)) refl
  where
    go :
        (c : Bool)
        → (due && not (has_active_alarm b name type run)) ≡ c
        → Adds base (if c then raise_alarm now name type run at b else b)
    go false q = (e, h)
    go true q = (
      e,
      All-append (IsFresh base) b.added _ h (
        (
          absent name type run base.alarms
              (has_active_alarm-alarms base b name type run e ∙ ground arith),
          refl,
        ),
        tt,
      ),
    )

-- An evaluation that starts with no pending alarm raises an alarm only where none of its job and
-- type, and of its run for a run that was too short, is active in the rows; each is active.
pub evaluate-IsFresh :
    (now : Time) (b : Board) → b.added ≡ [] → All (IsFresh b) (evaluate now b).added
unfolding evaluate auto_resolve Adds
evaluate-IsFresh now b none_added =
    let h : Adds b b = (refl, subst (All (IsFresh b)) (sym none_added) tt) in
    (later_checks-keeps (Adds b) now (λ due. raise_if-Adds b due now) (check_jobs now b)
      (check_jobs-keeps (Adds b) now (λ due. raise_if-Adds b due now) b h)).1
