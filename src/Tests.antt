-- ===== src/Tests.antt =====
-- Tests: the development's definitions and theorems at concrete inputs.
mod Samples
mod Parse
mod Analyse
mod Execute
mod Device
mod Console
mod Reports
mod Command
mod Main
mod Validate
mod Stop
mod Collected
mod Print
mod Reordered
mod Threads
