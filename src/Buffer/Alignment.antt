-- ===== src/Buffer/Alignment.antt =====
-- alignment.rs: the tests for a no-copy buffer. Addresses are numbers; the page size, which the
-- system call `sysconf` gives, is an argument.
use polars_metal.Base.{
  ℕ, ◌-◌, ◌%◌, ◌^◌, ◌≡◌, ◌↔◌, Bool, true, ◌&&◌, bit_and, ◌==◌, nat_eq, nat_beq_iff,
}
use polars_metal.Base.Bits.{bit_and_mask}

unfoldable pub is_aligned : ℕ → ℕ → Bool
is_aligned ptr align = bit_and ptr (align - 1) == 0

unfoldable pub is_ptr_page_aligned : ℕ → ℕ → Bool
unfolding is_aligned
is_ptr_page_aligned page_size ptr = is_aligned ptr page_size

unfoldable pub is_page_aligned : ℕ → ℕ → ℕ → Bool
unfolding is_aligned
is_page_aligned page ptr len = is_aligned ptr page && is_aligned len page

-- For an alignment that is a power of two, the masked test of `is_aligned` says whether the
-- address is a multiple of it.
pub is_aligned_iff : (ptr k : ℕ) → (is_aligned ptr (2 ^ k) ≡ true) ↔ (ptr % 2 ^ k ≡ 0)
unfolding is_aligned
is_aligned_iff ptr k = rw (bit_and_mask k ptr) (nat_beq_iff _ _)
