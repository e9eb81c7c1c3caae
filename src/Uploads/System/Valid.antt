-- ===== src/Uploads/System/Valid.antt =====
-- The invariant of the queue with its tasks, for every event and so for every sequence of events.
pub mod Tasks
pub mod Restores
pub mod Steps
mod Calls
pub use Calls.{IsValid, react-IsValid, start-IsValid, run_events-IsValid}
