-- ===== src/Framework.antt =====
-- module-cpp/src/framework: the layer for C++ applications. Uuids has the texts of identifiers,
-- Callbacks the functions that are bound to types of messages, Applications the features that bind
-- them, Core the start and the end of the layer and what it does with a message.
pub mod Uuids
pub mod Callbacks
pub mod Applications
pub mod Core
pub mod Load
pub mod Json
pub mod Schemas
pub mod Senders
