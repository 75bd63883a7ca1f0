-- ===== src/Providers.antt =====
-- app/providers: the adapters' common interface, the capability map and the registry.
pub mod Capabilities
pub mod Interface
pub mod ClientPool
pub mod Registry
pub mod CircuitBreaker
pub mod Retry
pub mod Pairs
pub mod Adapter
pub mod Catalogue
pub mod Mapping
pub mod Polling
