-- ===== src/Examples.antt =====
-- The theorems at concrete inputs.
mod Queue
mod Frames
mod Trigger
mod Plan
mod Journal
mod Sessions
mod Graphs
mod Diagnosis
mod Mastering
