-- ===== src/Spot.antt =====
-- The spot service (spotService): the markets, their caches, and who may see them.
pub mod Platform
pub mod Store
pub mod Cache
pub mod Viewer
pub mod Poller
