-- ===== src/Tenancy/Owners.antt =====
-- The sole-owner rule: every organization that is not revoked keeps an active owner.
pub mod Count
pub mod Writes
pub mod Members
pub mod Orgs
pub mod Invitations
