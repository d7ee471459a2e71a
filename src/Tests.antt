-- ===== src/Tests.antt =====
-- The theorems at concrete inputs, and runs of the code.
mod Caches
mod Witness
mod Tables
mod Threads
mod Traces
mod Operands
mod Instructions
mod Captures
mod Traps
mod Sessions
mod Elements
mod Sample
mod Viewer
