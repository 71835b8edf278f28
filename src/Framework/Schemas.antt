-- ===== src/Framework/Schemas.antt =====
-- module-cpp/src/framework/schemas: the structures that are sent as JSON texts. `Fields` has what the
-- schemas share, each other module a schema with its round trip.
pub mod Fields
pub mod Ascii
pub mod Layers
pub mod MeshFormats
pub mod SendTo
pub mod ConnectionDetails
pub mod ConfigRequest
pub mod MeshExport
pub mod MeshRoundtrip
mod Tests
