-- ===== src/Tests.antt =====
-- The theorems at concrete inputs, and runs of the definitions.
pub mod Data
pub mod Rights
pub mod Drafts
pub mod Items
pub mod Tables
pub mod Queries
pub mod Mapping
pub mod Receipts
pub mod Comments
pub mod Actions
pub mod Balances
pub mod Policies
pub mod Daos
pub mod Caches
pub mod Claims
pub mod Connections
pub mod Passwords
pub mod Pages
