-- ===== src/Scheduler.antt =====
-- The scheduler (autosys/scheduler). Clock is the datetime arithmetic, Store the session over the
-- job, event, global, machine and run tables, Window the run_window test, Box the BoxManager,
-- Activate the activation of jobs, Handlers the event handlers, and Tick the tick.
pub mod Clock
pub mod Store
pub mod Session
pub mod Window
pub mod Box
pub mod Activate
pub mod Handlers
pub mod Events
pub mod Tick
pub mod Starts
pub mod Globals
pub mod Forced
pub mod Operators
pub mod Restricted
