-- ===== src/Net/First.antt =====
-- The device of exemples/06-driver-reseau/example-VI-01.c, which drops what it is given.
use ild.Base.{
  ℕ, ◌+◌, ℤ, pos, neg, is_zero, Bool, true, false, not, ◌&&◌, if◌then◌else◌, List, [], ◌∷◌, ◌++◌,
  ◌≡◌, arith,
}
use ild.Kernel.Errno.{enomem, enodev}
use ild.Kernel.Held.{Held, acquire, release, mem, netdev, registered}
use ild.Gpio.Balance.{settle}

pub record First : Type 0 where
  pub freed : List ℕ
  pub started : Bool
  pub dev_addr : List ℕ

unfoldable pub first_open : First → First
first_open d = record d { started = true; dev_addr = 0x00 ∷ 0x12 ∷ 0x34 ∷ 0x56 ∷ 0x78 ∷ 0x00 ∷ [] }

unfoldable pub first_stop : First → First
first_stop d = record d { started = false }

unfoldable pub first_start_xmit : ℕ → First → ℤ × First
first_start_xmit sk_b d = (pos 0, record d { freed = d.freed ++ sk_b ∷ [] })

-- A device that could not be registered is unregistered all the same.
unfoldable pub first_init : Bool → ℤ → Held → ℤ × Held
first_init alloc_netdev register_netdev h =
    let h₁ = acquire (netdev 0) h in
    if not alloc_netdev
    then (neg enomem, h)
    else (if not (is_zero register_netdev)
        then (neg enodev, release (netdev 0) (release (registered 0) h₁))
        else (pos 0, acquire (registered 0) h₁))

unfoldable pub first_exit : Held → Held
first_exit h = release (netdev 0) (release (registered 0) h)

-- The entry point of example-VI-01.c, when the device cannot be registered, unregisters a device
-- that was not; in every other case a refusal to load, or loading and removal, leave what was held
-- before.
pub first_init-faults :
    (alloc_netdev : Bool) (register_netdev : ℤ) (h : Held)
    → mem (registered 0) h.resources ≡ false
    → settle first_exit (first_init alloc_netdev register_netdev h) ≡ record h {
      faults = h.faults + (if alloc_netdev && not (is_zero register_netdev) then 1 else 0);
    }
unfolding first_init first_exit
first_init-faults alloc_netdev register_netdev h fresh = ground arith
