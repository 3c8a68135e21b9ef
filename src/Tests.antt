-- ===== src/Tests.antt =====
-- Runs of the modelled code on concrete inputs, and the theorems at inputs that meet their
-- hypotheses.
mod Chunks
mod Counts
mod Disks
mod Reopening
mod Formats
mod Journal
mod Locks
mod Stores
