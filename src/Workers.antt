-- ===== src/Workers.antt =====
-- The callbacks of the workers, libs/wallet-core/src/callbacks, and the entry of a withdrawal.
pub mod Picker
pub mod Signer
pub mod Sender
pub mod CollectTx
pub mod Collector
pub mod Seeder
pub mod Verifier
pub mod Internal
pub mod Requests
