-- ===== src/UintQueue/Threads.antt =====
-- Any number of threads in calls of one queue at a time, interleaved access by access.
-- The two histories record the elements in the order of the exchanges that claim a ticket for them.
pub mod Defs
pub mod Moves
pub mod Fifo
mod Tests
