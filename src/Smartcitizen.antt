-- ===== src/Smartcitizen.antt =====
-- pkg/smartcitizen: the payload of a device, the metadata of the sensors, and how a payload is enriched.
pub mod Types
pub mod Metadata
pub mod Parse
mod Tests
