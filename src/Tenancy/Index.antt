-- ===== src/Tenancy/Index.antt =====
-- The index activeMemByOrgUsr against the memberships that it indexes.
pub mod Keys
pub mod Writes
pub mod Methods
pub mod Orgs
