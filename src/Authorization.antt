-- ===== src/Authorization.antt =====
-- agentid/authorization: permission patterns, roles, and the decision engine.
pub mod Permissions
pub mod Rbac
pub mod Policies
pub mod Decisions
pub mod Engine
