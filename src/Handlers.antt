-- ===== src/Handlers.antt =====
-- www/handlers: the handlers of requests for tiles and of the administration.
pub mod Proxy
pub mod Admin
pub mod Samples
