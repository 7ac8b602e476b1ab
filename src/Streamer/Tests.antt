-- ===== src/Streamer/Tests.antt =====
-- Reads of disk/streamer.c from a disk of sectors of four bytes.
use peach_os64bit_module_two.Common.{ℕ, ◌+◌, ◌*◌, ◌%◌, inl, refl, arith, ltb, if◌then◌else◌}
use peach_os64bit_module_two.Status.{Result, ok}
use peach_os64bit_module_two.Memory.{Mem}
use peach_os64bit_module_two.Streamer.{Stream, diskstreamer_read}
use peach_os64bit_module_two.Streamer.Read.{Delivers, Serves}
use peach_os64bit_module_two.Streamer.Whole.{diskstreamer_read-Delivers}

abbrev contents : ℕ → ℕ
contents p = p % 256

-- The state counts the sectors that were asked for; behind a sector its buffer has zeros.
abbrev sector : ℕ → ℕ → ℕ
sector i j = if ltb j 4 then contents (4 * i + j) else 0

abbrev fetch : ℕ → ℕ → Result (ℕ → ℕ) × ℕ
fetch asked i = (ok (sector i), asked + 1)

abbrev served : Serves fetch contents 4 10
served = record {
  buffer = λ asked i. sector i;
  found = λ asked i _. refl;
  in_int = omega arith;
  content = λ asked i j _ lt. ground (arith, lt);
}

abbrev at_six : Stream
at_six = record { pos = 6; sector_size = 4 }

abbrev zeros : Mem
zeros a = 0

diskstreamer_read-Delivers_example :
    Delivers contents at_six zeros 100 9 (diskstreamer_read fetch 0 at_six zeros 100 9)
diskstreamer_read-Delivers_example =
    diskstreamer_read-Delivers fetch contents at_six 10 served (omega arith) 0 zeros 100 9
      (omega arith) (inl (omega arith))
