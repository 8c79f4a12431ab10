-- ===== src/Scenario.antt =====
-- src/vdevlab/scenario.py: the validation of a scenario document and its normal form.
-- The children follow the file: field checks, durations, the device and application sections,
-- events, assertions, and the whole document.
mod Schema
pub mod Fields
pub mod Duration
pub mod Sections
pub mod Events
pub mod Assertions
pub mod Document
pub mod Reordered
unfoldable pub use Schema.*
