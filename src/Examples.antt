-- ===== src/Examples.antt =====
-- Concrete inputs, and the theorems at them.
mod Sort
mod Arrays
mod Logs
mod Buffers
mod Levels
mod Trees
mod Epochs
mod Queue
mod Checkpoints
mod Jobs
mod Scans
mod Files
mod Shards
mod Extensions
