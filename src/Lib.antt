-- ===== src/Lib.antt =====
-- Verification of the AutoSys clone, a scheduler of batch jobs written in Python.
--
-- The scheduler keeps its jobs in a database. A daemon runs ticks: it takes the queued events,
-- handles each, lets the box manager start and end the jobs in boxes, dispatches stuck jobs again,
-- ends jobs that run too long, starts jobs whose conditions a change has met, and queues the jobs
-- whose time has come. Conditions are texts in a small language over the statuses, exit codes and
-- last ends of jobs and over global variables.
--
-- Files, and the code that they are about:
-- - Status.antt: JobStatus (autosys/models/enums.py) and the transition table
--   (autosys/scheduler/state_machine.py). Status/Paths.antt is about walks in the table.
-- - Condition.antt, Condition/Tokenizer.antt, Condition/Parser.antt, Condition/Eval.antt: the
--   nodes and tokens, `_tokenize_condition`, `_CondParser`, and `evaluate` with
--   `list_job_dependencies` (autosys/parser/condition_parser.py).
-- - Evaluator.antt: `is_satisfied` and `referenced_job_names`
--   (autosys/scheduler/condition_evaluator.py).
-- - Scheduler/Clock.antt and Scheduler/Store.antt: times, and the rows and queries
--   (autosys/db/schema.py, autosys/db/repository.py). Scheduler/Session.antt is the monad in which
--   the handlers are written: a World in, and a World out with a result or an exception.
-- - Scheduler/Box.antt: BoxManager (autosys/scheduler/box_manager.py); `tick` is `box_tick`,
--   `_process_box` is `process_box`, with its decision in `verdict`.
-- - Scheduler/Window.antt, Scheduler/Activate.antt, Scheduler/Handlers.antt, Scheduler/Events.antt,
--   Scheduler/Tick.antt: EventProcessor (autosys/scheduler/event_processor.py), from
--   `_in_run_window` over the handlers to `process_one_tick` and `run_forever`. The handlers have
--   the names of the methods, without the leading underscore.
-- - TimeTrigger.antt: autosys/scheduler/time_trigger.py.
-- - Ha.antt: DistributedLock (autosys/scheduler/ha.py), by which several daemons are to agree on one.
--   Ha/Exclusion.antt is about sequences of its operations.
-- - Jil.antt and its children: the JIL language. Jil/Quotes.antt, Jil/Comments.antt,
--   Jil/Statements.antt, Jil/Lines.antt and Jil/Lexer.antt are autosys/parser/lexer.py from the
--   values over the comments, the statements of a line and the logical lines to `tokenize`;
--   Jil/Attrs.antt is autosys/parser/jil_attrs.py; Jil/Values.antt, Jil/Stanza.antt,
--   Jil/Machine.antt and Jil/Parser.antt are autosys/parser/jil_parser.py; Jil/Writer.antt is
--   `job_to_jil` (autosys/parser/jil_writer.py). A position in a text is the text behind it. Lexer
--   and parser are in strict mode. Jil/Streams.antt and the files in the folders of these hold the
--   proofs.
-- - Alarm.antt, Alarm/Deadlines.antt: AlarmManager (autosys/notifications/alarm_manager.py), with
--   proofs in Alarm/Checks.antt, Alarm/Fresh.antt, Alarm/Notice.antt and
--   Alarm/Deadlines/Latest.antt.
-- - Substitute.antt, Substitute/JobAttrs.antt: the %%VAR%% substitution
--   (autosys/parser/variable_sub.py), with proofs in Substitute/Pieces.antt and Strict.antt there.
-- - Scheduler/Starts.antt, Globals.antt, Forced.antt, Operators.antt, Restricted.antt,
--   Box/Family.antt,
--   Box/Decision.antt, Tick/Boxes.antt, Tick/Handlers.antt, Tick/Stale.antt, Activate/Depth.antt,
--   Activate/Opening.antt, Window/Cycle.antt, Session/Loops.antt and Session/Keeps.antt there, and
--   TimeTrigger/Listed.antt and Soundness.antt, Evaluator/Frame.antt and the files named Total.antt
--   hold the proofs.
-- - Prelude.antt holds shared helpers, Tests.antt concrete runs.
--
-- The session. A World has the objects of the session as they are (`live`) and the rows that the
-- database has (`saved`). A query filters `saved`, and yields the objects of `live`. `autoflush`
-- says whether a query flushes first; the sessions that autosys/db/connection.py makes do not. A
-- flush is taken to succeed, and `saved` to be in the order of the names.
--
-- Choices. A text is a list of code points. White space is that of `str.isspace`; digits are
-- ASCII, and so are the letters that have a case, apart from the regular expressions of the JIL
-- lexer for sub-commands, where the four other characters that match an ASCII letter are modelled.
-- A time is a number of microseconds, a date a number of days. The lookback of a condition is
-- compared exactly and not in floats. What `float` makes of a text is a parameter (FloatText), and
-- so are the dispatcher, which changes its row and may raise, and the heartbeat of a machine
-- (Processor). The pydantic models that the JIL parser builds jobs and machines with are
-- parameters too (Models).
--
-- Fuel. The tokenizer takes one more than the length of the text, the parser four for each token
-- and four more. The loops of the JIL lexer take the length of their text or the number of their
-- lines, and those of its parser the number of the tokens, and each step takes at least one.
--
-- Recursion. Python limits how deep calls nest. For `_activate_box` the model has the limit as a
-- field of the processor (nesting), and raises where it is used up; a box that is being opened is
-- ACTIVATED and is not opened again within, so no more calls nest than there are jobs. The parser
-- of conditions recurses too: it is taken to have room for its fuel, and the RecursionError that a
-- very deep nesting of parentheses brings is no outcome of the model, nor of what stands on it
-- (`is_satisfied`, `referenced_job_names`). The flow of the scheduler is for a processor without a
-- failure injector.
--
-- Clocks. The start of a run and the time at which an alarm is raised are read from clocks of
-- their own in the code; the model takes them to show the time of the tick or of the evaluation. A
-- dispatcher changes its row alone; the run that autosys/agent/dispatch.py adds is left out.
--
-- Each operation of the lock is taken as one transaction, which the code does not lock for.
--
-- Not modelled: logging, the signals of `kill_fn` and the callbacks on a status change; the
-- failure injector, the call of the alarm manager at the end of a tick and the runs that they
-- record; the rows of other tables that go or stay with a deleted job; calendars that cannot be
-- read, which a tick skips; `condition_to_str`; the tolerant mode of the JIL lexer and parser with
-- its diagnostics, the application of JIL operations and the import of files; agents, servers,
-- commands and reports, which are other parts of the system around this core.
pub mod Prelude
pub mod Status
pub mod Condition
pub mod Evaluator
pub mod Scheduler
pub mod TimeTrigger
pub mod Ha
pub mod Alarm
pub mod Jil
pub mod Substitute
pub mod Tests
