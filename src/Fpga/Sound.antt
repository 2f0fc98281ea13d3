-- ===== src/Fpga/Sound.antt =====
-- What holds of example-fpga.c whatever calls and interrupts come between its probe and its
-- removal.
use ild.Base.{◌&&◌, ℕ, ◌≡◌, Bool, ltb, ◌==◌, get_or, set}
use ild.Kernel.Held.{Held, leaked, memory}
use ild.Fpga.{Fpga, nb_minors}
use ild.Fpga.System.{Running, IsSound}

abbrev with_count : ℕ → ℕ → Fpga → Fpga
with_count minor n s = record s { module_open = set s.module_open minor n }

-- An opening succeeds for a minor that is there and closed, with the memory for the file's
-- structure.
abbrev may_open : Bool → ℕ → Fpga → Bool
may_open kmalloc minor s = ltb minor nb_minors && (get_or s.module_open minor 0 == 0 && kmalloc)

record Keeps (leds : ℕ) (h : Held) (r : Running) : Type 0 where
  sound : IsSound leds r.fpga
  balance : r.held ≡ leaked (memory 1) r.openings h
