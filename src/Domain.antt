-- ===== src/Domain.antt =====
-- internal/domain/models.go: the data of the control plane, what its clients send, and the checks
-- on what they send.
pub mod Models
pub mod Inputs
pub mod Parsers
pub mod Validation
pub mod Transitions
