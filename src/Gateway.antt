-- ===== src/Gateway.antt =====
-- agentid/gateway: authentication, rate limits, administrative access, routing and the calls of tools.
pub mod Auth
pub mod RateLimit
pub mod Router
pub mod Proxy
pub mod Service
pub mod Deps
pub mod Exchange
pub mod Discovery
pub mod Login
pub mod Policy
pub mod Catalog
pub mod Accounts
pub mod Commands
pub mod App
