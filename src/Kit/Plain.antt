-- ===== src/Kit/Plain.antt =====
-- exemples/07-utilisation-bus-usb/example-VII-03.c: a driver that writes with no mutex, no flag and
-- no test of the device.
use ild.Base.{ℕ, ◌%◌, ℤ, pos, is_zero, Bool, if◌then◌else◌, List, Option, none, some, map}
use ild.Usb.{Endpoint}
use ild.Kit.Write.{Parsed, numbers, refused, misplaced, parse_values}

-- What the driver keeps of the device that is bound.
pub record Plain : Type 0 where
  pub present : Bool
  pub endpoint : Option Endpoint
  pub urb : Bool
  pub buffer : Option (List ℕ)

-- The end of a write. It may store a byte before its own buffer, or through a null pointer.
pub data Written : Type 0 where
  returned : ℤ → Plain → Written
  null_pointer : Plain → Written
  out_of_bounds : Plain → Written

unfoldable pub example_open : Plain → ℤ × Plain
example_open s = (pos 0, s)

unfoldable pub example_release : Plain → ℤ × Plain
example_release s = (pos 0, s)

-- `submit` is what `usb_submit_urb` returns.
unfoldable pub store_packet : ℤ → List ℕ → ℕ → Plain → Option (List ℕ) → Written
store_packet submit values length s none = null_pointer s
store_packet submit values length s (some _) =
    let s₁ = record s { buffer = some (map (λ v. v % 256) values) } in
    if is_zero submit then returned (pos length) s₁ else returned submit s₁

unfoldable pub write_parsed : ℤ → ℕ → Plain → Parsed → Written
write_parsed submit length s misplaced = out_of_bounds s
write_parsed submit length s (refused err) = returned err s
write_parsed submit length s (numbers values) = store_packet submit values length s s.buffer

unfoldable pub example_write :
    (List ℕ → Option (List ℕ)) → Bool → ℤ → List ℕ → ℕ → ℕ → Plain → Written
example_write sscanf kmalloc submit data_ length left s =
    write_parsed submit length s (parse_values sscanf kmalloc data_ length left)
