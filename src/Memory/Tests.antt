-- ===== src/Memory/Tests.antt =====
-- Runs of the byte routines, and their theorems at small memories.
use Prim.Native.Nat.{Ordering}
use peach_os64bit_module_two.Common.{◌%◌, ◌≡◌, refl}
use peach_os64bit_module_two.Memory.{Mem, memcpy, memcmp}

abbrev ramp : Mem
ramp a = a % 256

-- Copied onto itself two bytes on, a block repeats its first two bytes: the copy is no `memmove`.
memcpy_overlap : memcpy ramp 2 0 6 7 ≡ 1
unfolding memcpy
memcpy_overlap = refl

memcmp_signed : memcmp (λ i. 0x80) (λ i. 0x7f) 1 ≡ Ordering.lt
unfolding memcmp
memcmp_signed = refl
