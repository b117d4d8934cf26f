-- ===== src/Examples.antt =====
-- Runs of the theorems on a small store: one job, a host whose hash tells short texts from long ones,
-- and gates that pass everything.
pub mod Fixtures
mod Store
mod Rules
mod Dedup
mod Grounding
mod Media
mod Pages
mod Templates
mod Runs
