-- ===== src/Delivery.antt =====
-- The way of a message from one application to another: core/src/external_api.c and
-- core/src/details/message_queue.c on the one side, core/src/details/threadimpl/write_threads.c, the
-- connection between them, and core/src/details/threadimpl/read_threads.c and
-- core/src/details/dispatch.c on the other side. Channel is the connection, Ends what a context does at
-- each end, Letters the messages on their way, Whole the way from the one call to the others.
pub mod Channel
pub mod Ends
pub mod Letters
pub mod Whole
mod Tests
