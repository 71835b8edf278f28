-- ===== src/Contexts.antt =====
-- core/src/details/context_queue.c: the table of contexts, the queue of free ones, and the
-- operations on them. `Types` has the structures, `Open` what takes a context from the free queue,
-- `Close` the other operations; the rest are about what these do.
pub mod Types
pub mod Open
pub mod Close
pub mod Config
pub mod FreeList
pub mod Announcing
pub mod Opening
pub mod Connecting
pub mod Accepting
pub mod Closing
pub mod Handshake
pub mod Starting
mod Tests
mod EndTests
