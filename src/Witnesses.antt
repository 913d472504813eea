-- ===== src/Witnesses.antt =====
-- The theorems at concrete inputs.
mod Console
mod Trace
mod Session
mod Threads
mod Bridge
mod Tools
mod Package
mod Checks
mod Probe
mod Handler
mod Play
mod Recording
mod Export
mod Hygiene
