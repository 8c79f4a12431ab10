-- ===== src/Analysis.antt =====
-- src/vdevlab/analysis.py: the monitor's log, the recovery metrics and the evaluated assertions.
mod Records
pub mod Log
pub mod Recovery
pub mod Evaluate
unfoldable pub use Records.*
