-- ===== src/Handlers/Admin.antt =====
-- www/handlers/admin: the administration of the caches.
pub mod Workers
pub mod Priming
pub mod Turns
pub mod Tiles
pub mod Invalidation
pub mod Replies
pub mod Faithful
pub mod Serving
pub mod Endpoints
pub mod Status
pub mod Flushing
pub mod Emptied
pub mod Reloading
pub mod Tally
pub mod Staff
mod Runs
