-- ===== src/Runner.antt =====
-- src/vdevlab/runner.py: the device backend, the kernel log, the application process, the scheduler
-- of events and the run of a scenario.
mod Records
pub mod Fault
pub mod Device
pub mod KernelLog
pub mod Process
pub mod Decode
pub mod Scheduler
pub mod Run
unfoldable pub use Records.*
