-- ===== src/Auth.antt =====
-- Authentication (server/auth): the denylist of revoked tokens, signed tokens and roles.
pub mod Revocation
pub mod Store
pub mod Token
pub mod Access
pub mod Limits
mod Codec
mod Examples
mod LimitExamples
