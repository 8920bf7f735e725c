-- ===== src/Tests.antt =====
-- Runs of the models at concrete inputs, and the theorems at inputs that meet their hypotheses.
mod Runs
mod FreeLists
mod Words
mod Driver
mod Heaps
mod Clients
mod Replays
mod TraceFiles
