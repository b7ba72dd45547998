-- ===== src/Common.antt =====
-- What the two servers share (common/).
pub mod Array
pub mod Json
pub mod Net
