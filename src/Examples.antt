-- ===== src/Examples.antt =====
-- The theorems at concrete inputs, which show that their hypotheses can hold.
pub mod Data
pub mod Engine
pub mod Formats
pub mod Results
pub mod Selection
pub mod Texts
pub mod Times
pub mod Timers
pub mod Trees
