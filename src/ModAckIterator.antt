-- ===== src/ModAckIterator.antt =====
-- pubsuber/src/ModAckIterator.h and ModAckIterator.cpp, with `AckWatchDescriptior` of
-- pubsuber/src/ContainerTypes.h and the deadlines of pubsuber/src/Trimpl.h: the ids of the messages
-- of one subscription that wait for an acknowledgement. Clock readings are nanoseconds.
pub mod State
pub mod Requests
pub mod Calls
pub mod Drain
pub mod DrainEnds
pub mod Sends
pub mod Deadlines
pub mod Extension
pub mod Due
pub mod Stuck
pub mod Process
pub mod Outcome
pub mod Total
pub mod Ready
pub mod Races
pub mod Pending
pub mod Decisions
pub mod Users
pub mod Local
pub mod Concurrent
pub mod Refinement
pub mod Interleaved
pub mod Reorder
pub mod Kept
mod Tests
unfoldable pub use State.*
