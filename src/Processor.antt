-- ===== src/Processor.antt =====
-- src/lcp/adapters/processor: the gates of Stage 2.
pub mod DraftLinter
pub mod RiskGate
pub mod DedupGate
pub mod MediaGate
