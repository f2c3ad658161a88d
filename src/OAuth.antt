-- ===== src/OAuth.antt =====
-- internal/oauth: accounts, their quotas, the pool that leases them and the selectors.
pub mod Quota
pub mod Account
pub mod Selector
pub mod Affinity
pub mod Pool
