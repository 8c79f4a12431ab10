-- ===== src/Report.antt =====
-- src/vdevlab/report.py: the report of a run, its timeline, its assertions and its status.
mod Records
pub mod Timeline
pub mod Documents
pub mod Build
unfoldable pub use Records.*
