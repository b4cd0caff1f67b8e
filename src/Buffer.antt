-- ===== src/Buffer.antt =====
-- The crate polars-metal-buffer: columns as the kernels see them.
pub mod Bitmap
pub mod Dict
pub mod Alignment
pub mod Errors
pub mod Staging
mod Tests
