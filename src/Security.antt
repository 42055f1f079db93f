-- ===== src/Security.antt =====
-- backend/security: passwords, tokens, roles, and the identity of a request.
pub mod Passwords
pub mod Tokens
pub mod Rbac
