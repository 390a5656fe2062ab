-- ===== src/History.antt =====
-- What the requests of agentid/gateway may do to the rows that its security rests on, whatever their order:
-- an abstract account of the tables, the refinement of it by every route, and what follows.
pub mod Evolution
pub mod Ledger
pub mod Sessions
pub mod Accounts
pub mod Roles
pub mod Catalog
pub mod Calls
pub mod Logins
pub mod Steps
pub mod Requests
pub mod Guarantees
