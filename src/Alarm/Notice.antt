-- ===== src/Alarm/Notice.antt =====
-- What is due raises an alarm (`_check_job` and `evaluate` of
-- autosys/notifications/alarm_manager.py).
use autosys_clone.Prelude.{
  ℕ, ◌≡◌, refl, ◌⊎◌, inl, inr, Bool, true, false, not, ◌&&◌, Option, none, some, List, [], ◌∷◌,
  ◌++◌, Text, eq_text, eq_text_self, any, arith, if◌then◌else◌, Bool-cases, ◌∙◌, sym, subst,
}
use autosys_clone.Status.{StatusValue, status, running, terminated, failure, norm_status, eq_value}
use autosys_clone.Condition.Eval.{Time}
use autosys_clone.Alarm.{
  Watched, AlarmType, Alarm, Board, has_active_alarm, eq_type, type_code, raise_alarm, raise_if,
  ran_too_long, check_job, may_alarm, selected, each, auto_resolve, check_jobs, evaluate,
}
use autosys_clone.Alarm.Fresh.{has_active_alarm-alarms}
use autosys_clone.Alarm.Checks.{each-keeps, check_job-keeps, later_checks-keeps}

-- An alarm of the job and type is active in the rows `base`, or is added.
unfoldable pub Noticed : Board → Text → AlarmType → List Alarm → Type 0
Noticed base name type added =
    (has_active_alarm base name type none ≡ true)
    ⊎ (any (λ a. eq_text a.job_name name && eq_type a.alarm_type type) added ≡ true)

-- The rows of the alarms are those of `base`, and the alarm is noticed.
Has : Board → Text → AlarmType → Board → Type 0
Has base name type b = (b.alarms ≡ base.alarms) × Noticed base name type b.added

any-before {ℓ} :
    {A : Type ℓ} (p : A → Bool) (xs ys : List A) → any p xs ≡ true → any p (xs ++ ys) ≡ true
any-before p [] ys h = absurd cc
any-before p (x ∷ xs) ys h = elim (Bool-cases (p x)) [
  | inl found ↦ rw found refl
  | inr other ↦ ground (arith, any-before p xs ys (ground arith))
]

any-last {ℓ} :
    {A : Type ℓ} (p : A → Bool) (xs : List A) (x : A) → p x ≡ true → any p (xs ++ x ∷ []) ≡ true
any-last p [] x h = rw h refl
any-last p (y ∷ xs) x h = ground (arith, any-last p xs x h)

raise_if-Has :
    (base : Board) (name : Text) (type : AlarmType) (due : Bool) (now : Time) (n : Text)
    (t : AlarmType) (run : Option ℕ) (at : Option StatusValue) (b : Board)
    → Has base name type b
    → Has base name type (raise_if due now n t run at b)
unfolding raise_if raise_alarm Has Noticed
raise_if-Has base name type due now n t run at b (e, h) =
    elim (due && not (has_active_alarm b n t run))
      as (λ c. Has base name type (if c then raise_alarm now n t run at b else b)) [
        | false ↦ (e, h)
        | true ↦ (e, elim h [ inl old ↦ inl old | inr new ↦ inr (any-before _ b.added _ new) ])
      ]

-- A due alarm is raised, or one is active.
raise_if-due :
    (base : Board) (now : Time) (name : Text) (type : AlarmType) (at : Option StatusValue)
    (due : Bool) (b : Board)
    → due ≡ true
    → b.alarms ≡ base.alarms
    → Has base name type (raise_if due now name type none at b)
unfolding raise_if raise_alarm Has Noticed type_code
raise_if-due base now name type at due b d e =
    elim (Bool-cases (has_active_alarm b name type none)) [
      | inl old ↦ rw (d, old) (e, inl (has_active_alarm-alarms base b name type none e ∙ old))
      | inr new ↦
          rw (d, new) (e, inr (any-last _ b.added _ (rw (eq_text_self name) (ground arith))))
    ]

raise_if-rows :
    (base : Board) (due : Bool) (now : Time) (n : Text) (t : AlarmType) (run : Option ℕ)
    (at : Option StatusValue) (b : Board)
    → b.alarms ≡ base.alarms
    → (raise_if due now n t run at b).alarms ≡ base.alarms
unfolding raise_if raise_alarm
raise_if-rows base due now n t run at b e =
    elim (due && not (has_active_alarm b n t run))
      as (λ c. (if c then raise_alarm now n t run at b else b).alarms ≡ base.alarms) [
        | false ↦ e
        | true ↦ e
      ]

-- What is due for a job by its status, and by the time for a job that runs.
unfoldable pub due_now : Time → Watched → AlarmType → Bool
due_now now j AlarmType.alarm_if_fail = eq_value (norm_status j.status) failure && j.alarm_if_fail
due_now now j AlarmType.alarm_if_terminated =
    eq_value (norm_status j.status) terminated && j.alarm_if_terminated
due_now now j AlarmType.max_run_alarm =
    eq_value (norm_status j.status) running && ran_too_long now j.last_start j.max_run_alarm
due_now now j _ = false

check_job-due :
    (base : Board) (now : Time) (j : Watched) (type : AlarmType) (b : Board)
    → due_now now j type ≡ true
    → b.alarms ≡ base.alarms
    → Has base j.job_name type (check_job now j b)
unfolding check_job due_now
check_job-due base now j AlarmType.alarm_if_fail b d e =
    let b1 =
      raise_if (due_now now j AlarmType.alarm_if_fail) now j.job_name AlarmType.alarm_if_fail none
        (some (status failure)) b in
    let b2 =
      raise_if (due_now now j AlarmType.alarm_if_terminated) now j.job_name
        AlarmType.alarm_if_terminated none (some (status terminated)) b1 in
    raise_if-Has base j.job_name AlarmType.alarm_if_fail (due_now now j AlarmType.max_run_alarm) now
      j.job_name AlarmType.max_run_alarm none (some (status running)) b2
      (raise_if-Has base j.job_name AlarmType.alarm_if_fail
        (due_now now j AlarmType.alarm_if_terminated) now j.job_name AlarmType.alarm_if_terminated
        none (some (status terminated)) b1
        (raise_if-due base now j.job_name AlarmType.alarm_if_fail (some (status failure))
          (due_now now j AlarmType.alarm_if_fail) b d e))
check_job-due base now j AlarmType.alarm_if_terminated b d e =
    let b1 =
      raise_if (due_now now j AlarmType.alarm_if_fail) now j.job_name AlarmType.alarm_if_fail none
        (some (status failure)) b in
    let b2 =
      raise_if (due_now now j AlarmType.alarm_if_terminated) now j.job_name
        AlarmType.alarm_if_terminated none (some (status terminated)) b1 in
    raise_if-Has base j.job_name AlarmType.alarm_if_terminated
      (due_now now j AlarmType.max_run_alarm) now j.job_name AlarmType.max_run_alarm none
      (some (status running)) b2
      (raise_if-due base now j.job_name AlarmType.alarm_if_terminated (some (status terminated))
        (due_now now j AlarmType.alarm_if_terminated) b1 d
        (raise_if-rows base (due_now now j AlarmType.alarm_if_fail) now j.job_name
          AlarmType.alarm_if_fail none (some (status failure)) b e))
check_job-due base now j AlarmType.max_run_alarm b d e =
    let b1 =
      raise_if (due_now now j AlarmType.alarm_if_fail) now j.job_name AlarmType.alarm_if_fail none
        (some (status failure)) b in
    let b2 =
      raise_if (due_now now j AlarmType.alarm_if_terminated) now j.job_name
        AlarmType.alarm_if_terminated none (some (status terminated)) b1 in
    raise_if-due base now j.job_name AlarmType.max_run_alarm (some (status running))
      (due_now now j AlarmType.max_run_alarm) b2 d
      (raise_if-rows base (due_now now j AlarmType.alarm_if_terminated) now j.job_name
        AlarmType.alarm_if_terminated none (some (status terminated)) b1
        (raise_if-rows base (due_now now j AlarmType.alarm_if_fail) now j.job_name
          AlarmType.alarm_if_fail none (some (status failure)) b e))
check_job-due base now j AlarmType.min_run_alarm b d e = absurd cc
check_job-due base now j AlarmType.heartbeat_fail b d e = absurd cc
check_job-due base now j AlarmType.must_start_alarm b d e = absurd cc
check_job-due base now j AlarmType.must_complete_alarm b d e = absurd cc

unfoldable pub Listed : Watched → List Watched → Type 0
Listed j [] = ⊥
Listed j (x ∷ xs) = (x ≡ j) ⊎ Listed j xs

each-due :
    (base : Board) (now : Time) (j : Watched) (type : AlarmType) (xs : List Watched) (b : Board)
    → Listed j xs
    → due_now now j type ≡ true
    → b.alarms ≡ base.alarms
    → Has base j.job_name type (each (check_job now) xs b)
unfolding Listed
each-due base now j type [] b l d e = absurd l
each-due base now j type (x ∷ xs) b (inl same) d e =
    each-keeps (Has base j.job_name type) now (λ due. raise_if-Has base j.job_name type due now)
      (check_job now) xs (check_job now x b)
      (check_job-keeps (Has base j.job_name type) now
        (λ due. raise_if-Has base j.job_name type due now))
      (subst (λ y. Has base j.job_name type (check_job now y b)) (sym same)
        (check_job-due base now j type b d e))
each-due base now j type (x ∷ xs) b (inr later) d e =
    each-due base now j type xs (check_job now x b) later d
      (check_job-keeps (λ c. c.alarms ≡ base.alarms) now (λ due. raise_if-rows base due now) x b e)

-- For a job that `evaluate` selects by its status, and for which an alarm on a failure, on a
-- termination or on a run that is too long is due, one of that job and type is active in the rows, or
-- is among the alarms that are pending behind the evaluation.
pub evaluate-Noticed :
    (now : Time) (b : Board) (j : Watched) (type : AlarmType)
    → Listed j (selected may_alarm b)
    → due_now now j type ≡ true
    → Noticed b j.job_name type (evaluate now b).added
unfolding evaluate auto_resolve check_jobs Has
evaluate-Noticed now b j type l d =
    (later_checks-keeps (Has b j.job_name type) now (λ due. raise_if-Has b j.job_name type due now)
      (check_jobs now b) (each-due b now j type (selected may_alarm b) b l d refl)).1
