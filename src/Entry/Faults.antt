-- ===== src/Entry/Faults.antt =====
-- Two modules that give back what they do not hold.
use ild.Base.{ℤ, Bool, false, is_zero, not, ◌&&◌, ◌+◌, if◌then◌else◌, ◌≡◌}
use ild.Kernel.Held.{Held, mem, gpio, registered}
use ild.Gpio.Balance.{settle}
use ild.Gpio.Line.{Tree, fdt_probe, settle_managed}
use ild.Gpio.Lines.{fdt_probe-faults}
use ild.Net.First.{first_init, first_exit, first_init-faults}

-- The probe of example-V-01-with-fdt.c and its removal give back twice each line that they found:
-- one or two releases too many after every probe that found a line. The entry point of
-- example-VI-01.c releases a registration that it does not have exactly when the device cannot be
-- registered. Neither leaves anything else held.
pub releases_too_many :
    (tree : Tree) (alloc_netdev : Bool) (register_netdev : ℤ) (h : Held)
    → mem (gpio 0) h.resources ≡ false
    → mem (gpio 1) h.resources ≡ false
    → mem (registered 0) h.resources ≡ false
    → (settle_managed (fdt_probe tree h) ≡ record h {
      faults = h.faults + (if tree.has_in then (if tree.has_out then 2 else 1) else 0);
    })
      × (settle first_exit (first_init alloc_netdev register_netdev h) ≡ record h {
        faults = h.faults + (if alloc_netdev && not (is_zero register_netdev) then 1 else 0);
      })
releases_too_many tree alloc_netdev register_netdev h a b c =
    (fdt_probe-faults tree h a b, first_init-faults alloc_netdev register_netdev h c)
