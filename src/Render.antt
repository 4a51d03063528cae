-- ===== src/Render.antt =====
-- server/render: the pictures of a report that the agent sees.
pub mod Slices
pub mod Tiles
pub mod Cache
mod Examples
