-- ===== src/Tests/Scheduler.antt =====
-- The theorems about the event handlers and the tick at concrete sessions.
use autosys_clone.Prelude.{
  ◌≡◌, refl, true, false, none, some, [], ◌∷◌, ◌++◌, codes, if◌then◌else◌, eq_text, rstrip, lstrip,
  to_upper, All,
}
use autosys_clone.Status.{running, failure, terminated, value, column_is}
use autosys_clone.Condition.{eq, value_cond}
use autosys_clone.Condition.Parser.{parse, parsed}
use autosys_clone.Condition.Tokenizer.{match_token, is_name_char, parse_condition}
use autosys_clone.Scheduler.Store.{
  killjob, startjob, job_on_hold, change_status, set_global, sync, get_row, status_snapshot, is_box,
}
use autosys_clone.Scheduler.Session.{world_of}
use autosys_clone.Scheduler.Box.{ended}
use autosys_clone.Scheduler.Handlers.{handle_killjob, handle_startjob, handle_change_status}
use autosys_clone.Scheduler.Events.{handle_event, handle_set_global}
use autosys_clone.Scheduler.Operators.{Moves, handle_event-Moves}
use autosys_clone.Scheduler.Starts.{handle_killjob_row, handle_startjob-dead_box}
use autosys_clone.Scheduler.Globals.{handle_set_global-new_events, handle_startjob-value_cond}
use autosys_clone.Scheduler.Forced.{
  open_run, ends_run, handle_change_status-new_runs, time_triggers-start_mins,
}
use autosys_clone.Scheduler.Tick.{process_one_tick, time_triggers}
use autosys_clone.Scheduler.Tick.Stale.{process_one_tick-stale}
use autosys_clone.Tests.Sample.{
  command, box, idle, processor, session, idle_session, event_for, queued,
}

process_one_tick-stale_example :
    ((process_one_tick processor 0 queued).0.saved ≡ queued.saved)
    × ((process_one_tick processor 0 queued).0.prev_snapshot ≡ some (status_snapshot none queued))
process_one_tick-stale_example = process_one_tick-stale processor 0 queued refl

handle_event-Moves_example : Moves (get_row session (codes "a")) (
    get_row
      (world_of (handle_event processor (event_for job_on_hold (codes "a")) [] 0 session))
      (codes "a"))
handle_event-Moves_example =
    handle_event-Moves processor (event_for job_on_hold (codes "a")) [] 0 session (codes "a") refl

found_a : get_row session (codes "a") ≡ some command
unfolding get_row eq_text
found_a = refl

found_box : get_row session (codes "box") ≡ some box
unfolding get_row eq_text
found_box = refl

found_idle : get_row idle_session (codes "a") ≡ some idle
unfolding get_row eq_text
found_idle = refl

no_box : is_box command ≡ false
unfolding eq_text
no_box = refl

a_box : is_box box ≡ true
unfolding eq_text
a_box = refl

handle_killjob_row_example :
    get_row (world_of (handle_killjob (event_for killjob (codes "a")) 3 session)) (codes "a")
    ≡ some (if column_is command.status running then ended terminated 3 command else command)
handle_killjob_row_example =
    handle_killjob_row (event_for killjob (codes "a")) 3 session command found_a no_box

handle_startjob-dead_box_example :
    (world_of (handle_startjob processor (event_for startjob (codes "box")) [] 3 session)).live
    ≡ (sync session).live
handle_startjob-dead_box_example =
    handle_startjob-dead_box processor (event_for startjob (codes "box")) [] 3 session box found_box
      a_box refl

handle_set_global-new_events_example :
    (world_of
      (handle_set_global processor (event_for set_global (codes "")) 3 idle_session)).new_events
    ≡ []
handle_set_global-new_events_example =
    handle_set_global-new_events processor (event_for set_global (codes "")) 3 idle_session refl

value_parses :
    parse_condition (codes "value(X) = 1") ≡ parsed (value_cond (codes "X") eq (codes "1"))
unfolding parse_condition rstrip lstrip match_token is_name_char parse eq_text to_upper
value_parses = refl

handle_startjob-value_cond_example :
    (world_of (handle_startjob processor (event_for startjob (codes "a")) [] 3 idle_session)).live
    ≡ idle_session.live
handle_startjob-value_cond_example =
    handle_startjob-value_cond processor (event_for startjob (codes "a")) [] 3 idle_session idle
      b'v' (codes "alue(X) = 1") (codes "X") b'1' [] refl found_idle refl value_parses

failure_ends : ends_run failure ≡ true
unfolding value
failure_ends = refl

handle_change_status-new_runs_example :
    (world_of (handle_change_status (event_for change_status (codes "a")) 3 session)).new_runs
    ≡ [] ++ open_run (event_for change_status (codes "a")) 3 session ∷ []
handle_change_status-new_runs_example =
    handle_change_status-new_runs (event_for change_status (codes "a")) 3 session command failure
      refl found_a refl failure_ends

bare : All (λ j. j.start_times ≡ none) (sync idle_session).saved
unfolding sync
bare = (refl, tt)

time_triggers-start_mins_example : time_triggers 0 idle_session ≡ sync idle_session
time_triggers-start_mins_example = time_triggers-start_mins 0 idle_session bare
