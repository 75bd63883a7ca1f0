-- ===== src/Api.antt =====
-- app/api/v1: the handlers of the routes, and what they depend on.
pub mod World
pub mod Deps
pub mod Auth
pub mod Admin
pub mod Uploads
pub mod Files
pub mod Media
