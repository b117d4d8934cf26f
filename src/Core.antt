-- ===== src/Core.antt =====
-- src/lcp/core: the pure core of the pipeline.
pub mod Errors
pub mod State
pub mod Draft
pub mod Clean
pub mod Dedup
pub mod Grounding
pub mod Lint
pub mod Risk
pub mod Assets
pub mod Steps
pub mod Templates
pub mod Extraction
