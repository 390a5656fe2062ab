-- ===== src/Credentials.antt =====
-- agentid/credentials: the credentials that the gateway holds for downstream servers.
pub mod Secrets
pub mod Cache
pub mod Storage
pub mod Manager
