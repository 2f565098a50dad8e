-- ===== src/Identity.antt =====
-- packages/identity: users, credentials, sessions, MFA factors and personal access tokens.
pub mod Types
pub mod Store
pub mod Sessions
pub mod Users
pub mod Credentials
pub mod Factors
pub mod Mfa
pub mod Pats
pub mod Signin
pub mod Recovery
pub mod Faults
pub mod Totp
pub mod RecoveryCodes
mod Tests
pub mod Hashing
