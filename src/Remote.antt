-- ===== src/Remote.antt =====
-- internal/control/remote: the managed instance, its state file, its accounts and its HTTP interface.
pub mod Store
pub mod Accounts
pub mod Draft
pub mod Server
pub mod Login
pub mod Handler
pub mod Leaves
pub mod Editors
pub mod Kept
pub mod Requests
pub mod Limits
pub mod Synced
pub mod Durable
