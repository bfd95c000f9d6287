-- ===== src/Tests/Alarm.antt =====
-- The alarm manager at a concrete board.
use autosys_clone.Prelude.{
  List, ◌⊎◌, inl, Text, ℕ, ◌≡◌, refl, true, false, none, some, [], ◌∷◌, map, codes, All,
}
use autosys_clone.Status.{norm_status, status, failure, running}
use autosys_clone.Alarm.{may_alarm, Watched, AlarmType, Alarm, Board, evaluate}
use autosys_clone.Alarm.Deadlines.{nearest_start}
use autosys_clone.Alarm.Deadlines.Latest.{NotBehind, Covers, Among, start_of, nearest_start-Covers}
use autosys_clone.Alarm.Notice.{Noticed, Listed, due_now, evaluate-Noticed}
use autosys_clone.Alarm.Fresh.{IsFresh, evaluate-IsFresh}

abbrev load : Watched
load = record {
  job_name = codes "load";
  status = some (status failure);
  alarm_if_fail = true;
  alarm_if_terminated = false;
  max_run_alarm = none;
  min_run_alarm = none;
  must_start_times = some (codes "9:30");
  must_complete_times = none;
  start_times = none;
  machine = none;
  last_start = none;
  last_run_date = none;
}

abbrev copy : Watched
copy = record load {
  job_name = codes "copy";
  status = some (status running);
  max_run_alarm = some 30;
  must_start_times = none;
  last_start = some 0;
}

abbrev old_alarm : Alarm
old_alarm = record {
  job_name = codes "copy";
  run_id = none;
  alarm_type = AlarmType.max_run_alarm;
  job_status_at_raise = some (status running);
  raised_at = 0;
  cleared_at = none;
  cleared_by = none;
}

abbrev board : Board
board = record {
  jobs = load ∷ copy ∷ [];
  rows = load ∷ copy ∷ [];
  down = [];
  runs = [];
  alarms = old_alarm ∷ [];
  added = [];
}

-- At 10:00: the failure is new, the long run is known, and the deadline 9:30, which has no leading
-- zero, is not seen to have passed.
abbrev ten : ℕ
ten = 36000000000

evaluate_test :
    map {B = Text × AlarmType} (λ a. (a.job_name, a.alarm_type)) (evaluate ten board).added
    ≡ (codes "load", AlarmType.alarm_if_fail) ∷ []
unfolding evaluate autosys_clone.Status.column_is autosys_clone.Prelude.eq_text
    autosys_clone.Prelude.rstrip autosys_clone.Prelude.lstrip autosys_clone.Prelude.is_space
evaluate_test = refl

evaluate-IsFresh_example : All (IsFresh board) (evaluate ten board).added
evaluate-IsFresh_example = evaluate-IsFresh ten board refl

abbrev starts : List Text
starts = codes "06:00" ∷ codes "9:15" ∷ codes "12:00" ∷ []

-- At 10:00 the start at 9:15 counts.
nearest_start_test : nearest_start 600 starts ≡ some (555, 0)
unfolding nearest_start autosys_clone.Prelude.rstrip autosys_clone.Prelude.lstrip
    autosys_clone.Prelude.is_space
nearest_start_test = refl

nearest_start-Covers_example :
    NotBehind 600 (nearest_start 600 starts)
    × All (λ t. Covers 600 (nearest_start 600 starts) (start_of t)) starts
    × ((nearest_start 600 starts ≡ none) ⊎ Among (nearest_start 600 starts) starts)
nearest_start-Covers_example = nearest_start-Covers 600 starts

evaluate-Noticed_example :
    Noticed board (codes "load") AlarmType.alarm_if_fail (evaluate ten board).added
unfolding Listed due_now may_alarm norm_status autosys_clone.Alarm.objects
    autosys_clone.Status.column_is autosys_clone.Prelude.eq_text
evaluate-Noticed_example = evaluate-Noticed ten board load AlarmType.alarm_if_fail (inl refl) refl
