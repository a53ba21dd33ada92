-- ===== src/Client.antt =====
-- frontend/src/api/client.ts: the requests that the console makes of its server, and what it makes of
-- the answers.
pub mod Encode
pub mod Wire
pub mod Queries
pub mod Accounts
pub mod Catalog
pub mod Estate
pub mod Gateway
pub mod Docker
pub mod Backups
pub mod Keys
pub mod Network
pub mod Identity
pub mod Databases
pub mod Zones
pub mod Instances
pub mod Storage
pub mod Containers
pub mod Roots
pub mod Calls
pub mod Session
pub mod Tests
