-- ===== src/Lib.antt =====
-- AgentID is a security gateway between AI agents and MCP servers. It authenticates the caller of a
-- tool, decides whether the call is allowed and which identity it runs as, resolves the credential
-- that the server needs, forwards the call, and writes an audit event. This library models its core
-- in Python and states what makes it correct.
--
-- The parts, and the files that model them (paths of the source from the root of the repository):
--
-- Prelude, Json, Errors, Jwt   shared types: lists, texts and tests, JSON values, the exceptions of
--   agentid/errors.py, and what is used of the JWT library
-- Models        agentid/models: each row is a record, and `Db` has one list for each table
-- Context, Config   agentid/context.py and config.py
-- Authorization agentid/authorization: Permissions (patterns and sets), Rbac (roles), Policies
--   (policy documents), Decisions, and Engine, whose `authorize_tool` runs one function for each step
--   of the source's method, in its order; Steps has the checks before the execution identity,
--   Execution the rest
-- Identity      agentid/identity: Users, Agents, ServiceAccounts, Sessions, Tokens, Delegation, ApiKeys
-- Registry      agentid/registry: Servers, Tools, Schemas, and Search (the search of tools.py)
-- Credentials   agentid/credentials: Secrets (vault.py, oauth.py, api_keys.py, refresh.py), Cache
--   (token_cache.py), Manager and Storage (manager.py and the downstream half of token_exchange.py)
-- Audit         agentid/audit: Redaction, Events, and Query (the query of storage.py and the routes of
--   gateway/api/audit.py)
-- Gateway       agentid/gateway: Auth (middleware/auth.py), RateLimit (middleware/ratelimit.py), Router
--   and Proxy (mcp/), Discovery (mcp/discovery.py and discover_tools of services/mcp_service.py),
--   Service (the rest of services/mcp_service.py), Deps (deps.py), Exchange and Login (the token
--   exchange of api/auth.py and its other routes), Policy (api/policy.py),
--   Accounts (api/identity.py), Catalog (api/registry.py), Commands (what a request asks for) and App
--   (main.py, deps.py, middleware/context.py and api/mcp.py: one request from its headers to its response)
-- Sdk           agentid/sdk/server: Claims and Verifier
-- Servers       agentid/servers: Common (the application of build_server behind its middleware) and the
--   tools of Github, Postgres and Kubernetes with their state
-- History       what any requests, one after the other, may do to the database: Evolution and Ledger are the
--   abstract account, Requests the proof that every route keeps to it, Guarantees what follows
-- Tests         the theorems at concrete inputs
--
-- A request goes through the parts in this order: Gateway.Auth turns the credential into a
-- `RequestContext`; Gateway.Service resolves the route, asks Authorization.Engine for a decision, lets
-- Credentials.Manager resolve the headers and posts the request that Gateway.Proxy builds; each of its
-- exits writes an event of Audit.Events. The server that receives the request reads the token in it
-- with Sdk. Gateway.App runs a request of any route, commits what the route commits, and turns an
-- exception into the response of the error handler.
--
-- How the source is written here. A function that only reads returns a `Result`; one that writes
-- returns the new state too, or is an action of Errors.Exec, whose state survives an exception. The
-- session of the database is the record `Db`; a query is the first row that passes its test, in the
-- order of insertion, and a write to a row that a query found is a write to the rows that pass the same
-- test, of which a unique key leaves one. Time is a number of microseconds, and each function is given
-- the readings of the clock, of which one stands for those that authentication takes of a request; a new id and a random secret are given too. A Python set is a list, and a
-- text that may be `None` is an `Option`, whose truth (`truthy`) is that of the source. Recursion is
-- structural everywhere: no function needs fuel.
--
-- Given, as parameters: the JWT library (the record `Jwt`, with the documented law of `decode`; that it decodes
-- a token that it encoded, until that expires, is a hypothesis of the theorems that need it),
-- password and secret hashing, the cipher of the vault with `str` on JSON values and the ISO form of
-- times (the record `Library`), the order of the ids of events of one time, the providers of refreshed secrets, the HTTP client, and for the example
-- servers `str` and `int` (the record `Builtins`) and the text of an exception.
--
-- Not modelled: message texts of exceptions and decisions, locks, logging to standard output, the
-- columns that no code reads, negative and fractional JSON numbers, case and white space beyond ASCII,
-- the files that policies are read from, the validation of request bodies, `/health` and `/`, the rendering of tools
-- and events as JSON in responses, requests that overlap in time, the database engine and the command line.
pub mod Prelude
pub mod Errors
pub mod Json
pub mod Models
pub mod Authorization
pub mod Context
pub mod Identity
pub mod Config
pub mod Jwt
pub mod Registry
pub mod Credentials
pub mod Audit
pub mod Gateway
pub mod Sdk
pub mod Servers
pub mod History
pub mod Tests
