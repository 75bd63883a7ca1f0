-- ===== src/Tests.antt =====
-- The theorems at concrete inputs, and the code run on small ones.
mod Routing
mod Resilience
mod RateLimiting
mod Capabilities
mod Token
mod Auth
mod Conversion
mod Ranking
mod Keys
mod Streaming
mod Codec
mod Chat
mod Context
mod Catalogue
mod Mapping
mod Video
mod Polling
mod Admin
mod Usage
mod Files
mod Media
