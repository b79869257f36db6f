-- ===== src/Requests.antt =====
-- The accreditation requests: src/modules/requests.
pub mod Status
pub mod Draft
pub mod Submit
pub mod Transition
pub mod Complement
pub mod Cancel
pub mod Decide
pub mod Machine
pub mod Rows
pub mod Effects
pub mod Decision
pub mod History
pub mod Counters
pub mod Capacity
pub mod Submission
pub mod Cancellation
pub mod Verdicts
pub mod Validation
pub mod Balance
pub mod Unfinished
pub mod Queries
pub mod Tracking
pub mod Ownership
pub mod Isolation
pub mod Http
