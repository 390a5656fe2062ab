-- ===== src/Tests.antt =====
-- The theorems at concrete inputs: a small database of one gateway, and what happens in it.
mod Data
mod Engine
mod Policy
mod Identity
mod Gateway
mod Login
mod Exchange
mod Servers
mod Audit
mod Discovery
mod Credentials
mod History
mod Routes
