-- ===== src/Models.antt =====
-- The rows of the tables, agentid/models/*.py, and the database that holds them.
mod Identity
mod Policy
mod Registry
mod Sessions
mod Audit
mod Database
pub use Identity.*
pub use Policy.*
unfoldable pub use Registry.*
unfoldable pub use Sessions.*
pub use Audit.*
pub use Database.*
