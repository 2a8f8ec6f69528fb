-- ===== src/Domain.antt =====
-- internal/domain: the secret aggregate, its policy, one rotation attempt, and the audits of values.
pub mod Errors
pub mod Kind
pub mod Values
pub mod Command
pub mod Target
pub mod MaxAge
pub mod Secret
pub mod Compliance
pub mod Rotation
pub mod Strength
pub mod Inspection
