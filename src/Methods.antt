-- ===== src/Methods.antt =====
-- The tables of methods and properties in methods/ of src/console/jsre/deps/web3.js.
pub mod Calls
pub mod Ledger
pub mod Actions
pub mod Eth
pub mod Db
pub mod Shh
pub mod Personal
pub mod Swarm
pub mod Net
pub mod Version
pub mod Logs
pub mod Whispers
pub mod Tables
mod Tests
