-- ===== src/Tenancy/Transfers.antt =====
-- The two ways in which ownership moves: SelfLeave with a transfer, and TransferOwnership.
pub mod Swap
pub mod Leave
pub mod Ownership
