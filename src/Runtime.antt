-- ===== src/Runtime.antt =====
-- The runtime of packages/persistence/runtime.py and packages/persistence/remediation.py: writes that a
-- caller makes in a transaction of its own, each journaled under its logical identity.
pub mod Values
pub mod Tables
pub mod Journal
pub mod Requests
pub mod Sessions
pub mod Frames
pub mod Stack
pub mod Recovery
pub mod DueRows
pub mod Recovers
pub mod Diagnostics
pub mod Answers
pub mod Calls
pub mod Effects
pub mod Bookings
pub mod History
