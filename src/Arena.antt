-- ===== src/Arena.antt =====
-- arena.rs of polars-metal-core: `BumpArena`, with `MetalBuffer::view_into` of bridge.rs in
-- polars-metal-buffer. A view is its place in the backing buffer. Whether Metal makes the buffer
-- object of a view is an argument.
pub mod Alloc
pub mod Disjoint
mod Tests
use polars_metal.Base.{
  ℕ, ◌+◌, ◌-◌, ◌^◌, Bool, true, false, Option, none, some, Result, ok, err, ◌>>=◌, ◌>>◌, fail_if,
  ok_or, ltb, ◌==◌, if◌then◌else◌, bit_and, nat_eq, not,
}
use polars_metal.Buffer.Errors.{BufferError}

pub record BumpArena : Type 0 where
  pub capacity : ℕ
  pub cursor : ℕ

pub record View : Type 0 where
  pub offset : ℕ
  pub size : ℕ

abbrev pub arena_align : ℕ
arena_align = 16

-- `usize::checked_add`
abbrev pub checked_add : ℕ → ℕ → Option ℕ
checked_add a b = if ltb (a + b) (2 ^ 64) then some (a + b) else none

-- `a & !(align - 1)` in 64 bits.
abbrev pub mask_down : ℕ → ℕ → ℕ
mask_down a align = bit_and a (2 ^ 64 - 1 - (align - 1))

unfoldable pub with_capacity : Bool → ℕ → Result BufferError BumpArena
with_capacity granted bytes =
    if bytes == 0
    then err (BufferError.allocation_failed 0)
    else if granted
    then ok (record { capacity = bytes; cursor = 0 })
    else err (BufferError.allocation_failed bytes)

module _ (makes_view : ℕ → ℕ → Bool) where
  pub view_into : ℕ → ℕ → ℕ → Result BufferError View
  view_into parent_len offset len = do
    fail_if (len == 0) (BufferError.allocation_failed 0)
    end ← ok_or (checked_add offset len) (BufferError.allocation_failed len)
    fail_if (ltb parent_len end) (BufferError.allocation_failed len)
    fail_if (not (makes_view offset len)) (BufferError.allocation_failed len)
    ok (record { offset = offset; size = len })

  -- The result of a request, with the cursor after it.
  pub alloc_at : BumpArena → ℕ → Result BufferError (View × ℕ)
  unfolding view_into
  alloc_at arena bytes = do
    fail_if (bytes == 0) (BufferError.allocation_failed 0)
    raised ←
        ok_or (checked_add arena.cursor (arena_align - 1)) (BufferError.allocation_failed bytes)
    let aligned_start = mask_down raised arena_align
    aligned_end ← ok_or (checked_add aligned_start bytes) (BufferError.allocation_failed bytes)
    fail_if (ltb arena.capacity aligned_end) (BufferError.allocation_failed bytes)
    view ← view_into arena.capacity aligned_start bytes
    ok (view, aligned_end)

  unfoldable pub alloc : BumpArena → ℕ → BumpArena × Result BufferError View
  unfolding alloc_at view_into
  alloc arena bytes = elim (alloc_at arena bytes) [
    | ok (view, aligned_end) ↦ (record arena { cursor = aligned_end }, ok view)
    | err e ↦ (arena, err e)
  ]
