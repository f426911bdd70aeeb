-- ===== src/Recovery.antt =====
-- crates/perch-recovery and crates/perch-recovery-interface: account recovery.
pub mod Config
pub mod Statement
pub mod Credential
pub mod Types
pub mod World
pub mod State
pub mod Conditions
pub mod Transitions
pub mod Entry
pub mod Invariant
pub mod Completion
pub mod Reach
pub mod Safety
pub mod Protected
pub mod History
mod Tests
mod ChangeTests
mod CredentialTests
mod ProofTests
