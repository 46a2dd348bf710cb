-- ===== src/Lang.antt =====
-- The generic containers of deps/common/lang.
pub mod Bitmap
pub mod LowerBound
