-- ===== src/Tenancy.antt =====
-- packages/tenancy: organizations, memberships and invitations behind one lock.
pub mod Types
pub mod Store
pub mod Orgs
pub mod Members
pub mod Invitations
pub mod Lists
pub mod Index
pub mod Cascade
pub mod Owners
pub mod Transfers
pub mod Machine
pub mod Guards
pub mod Lifecycle
pub mod Revocation
pub mod Faults
mod Tests
