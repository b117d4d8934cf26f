-- ===== src/Publisher.antt =====
-- src/lcp/adapters/publisher: the review packet and the sign-off.
pub mod Sanitizer
pub mod ReviewPacket
pub mod Signoff
pub mod Hold
pub mod Publication
pub mod Supersession
pub mod Effects
pub mod Approval
pub mod Redo
pub mod Binding
