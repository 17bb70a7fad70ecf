-- ===== src/Lifecycle/Refine.antt =====
-- The workers implement the machine: what each tick writes is a step of it, or is not seen by it.
pub mod Frames
pub mod Moves
pub mod Signing
pub mod Sending
pub mod Transfers
pub mod Verifying
pub mod Groups
pub mod Picking
pub mod Threshold
