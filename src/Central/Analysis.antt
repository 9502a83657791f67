-- ===== src/Central/Analysis.antt =====
-- pkg/central/analysis: samples of a suggestion session are compared, and the host is published if
-- the score is high enough.
pub mod Score
pub mod Session
pub mod Tick
mod Tests
