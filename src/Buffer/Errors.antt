-- ===== src/Buffer/Errors.antt =====
-- error.rs.
use polars_metal.Base.{ℕ}

pub data BufferError : Type 0 where
  alignment : ℕ → ℕ → ℕ → BufferError
  validity_shape : ℕ → ℕ → BufferError
  allocation_failed : ℕ → BufferError
