-- ===== src/Services.antt =====
-- app/services: routing, conversions, costs and ranking.
pub mod Interfaces
pub mod Router
pub mod Pipeline
pub mod Conversion
pub mod Cost
pub mod Ranker
pub mod Keys
pub mod Usage
pub mod Files
pub mod Streaming
pub mod Guardrails
pub mod Cache
pub mod ChatSetup
pub mod Chat
