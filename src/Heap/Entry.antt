-- ===== src/Heap/Entry.antt =====
-- The arithmetic on table entries is the bit arithmetic of memory/heap/heap.c.
use Prim.Native.Nat.{bit_and, bit_or}
use peach_os64bit_module_two.Common.{ℕ, ◌<◌, ◌≡◌, refl, if◌then◌else◌}
use peach_os64bit_module_two.Common.Byte.{agree, byte_ext}
use peach_os64bit_module_two.Heap.{entry_type, is_taken, has_next, set_has_next, clear_has_next}

module _ (entry : ℕ) (byte : entry < 256) where
  -- On a byte, each arithmetic form is the masking that the source writes: `& 0x0f`, `& 0x01`,
  -- `& 0x80`, `| 0x80` and `& ~0x80`.
  pub entry_bits :
      (entry_type entry ≡ bit_and entry 0x0f)
      × ((if is_taken entry then 0x01 else 0) ≡ bit_and entry 0x01)
      × ((if has_next entry then 0x80 else 0) ≡ bit_and entry 0x80)
      × (set_has_next entry ≡ bit_or entry 0x80)
      × (clear_has_next entry ≡ bit_and entry 0x7f)
  unfolding agree
  entry_bits = (
    byte_ext (λ x. entry_type x) (λ x. bit_and x 0x0f) refl entry byte,
    byte_ext (λ x. if is_taken x then 0x01 else 0) (λ x. bit_and x 0x01) refl entry byte,
    byte_ext (λ x. if has_next x then 0x80 else 0) (λ x. bit_and x 0x80) refl entry byte,
    byte_ext (λ x. set_has_next x) (λ x. bit_or x 0x80) refl entry byte,
    byte_ext (λ x. clear_has_next x) (λ x. bit_and x 0x7f) refl entry byte,
  )
