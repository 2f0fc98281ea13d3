-- ===== src/Kit.antt =====
-- The driver of the Velleman K8055 kit that only writes,
-- exemples/07-utilisation-bus-usb/example-VII-04.c: its state, the opening and the release of its
-- device, and the wait for a transfer.
pub mod Write
mod Flight
mod Calls
pub mod Plain
pub mod Probe
mod Unguarded
mod Tests
use ild.Base.{
  ℕ, ◌+◌, ◌-◌, ltb, ℤ, pos, neg, Bool, true, false, if◌then◌else◌, List, [], ◌∷◌, Option,
}
use ild.Kernel.Errno.{ebusy, erestartsys}
use ild.Usb.{Endpoint, Wake, signal, timeout, completed}

-- `flying` is no variable of the driver: it tells whether the URB is under way. `present` stands
-- for `example_usb_device` not NULL, `sent` for the packets submitted.
pub record Kit : Type 0 where
  pub open_count : ℕ
  pub locked : Bool
  pub present : Bool
  pub endpoint : Option Endpoint
  pub urb : Bool
  pub buffer : Option (List ℕ)
  pub busy : Bool
  pub out_locked : Bool
  pub flying : Bool
  pub sent : List (List ℕ)

unfoldable pub example_open : Bool → Kit → ℤ × Kit
example_open interrupted s =
    let s₁ = record s { locked = true } in
    if interrupted
    then (neg erestartsys, s)
    else (if ltb 0 s₁.open_count
        then (neg ebusy, record s₁ { locked = false })
        else (pos 0, record s₁ { open_count = s₁.open_count + 1; locked = false }))

-- The callback runs when the transfer is over.
unfoldable pub example_write_callback : Kit → Kit
example_write_callback s = record s { busy = false; flying = false }

-- The one wait of the release ends by a signal, after a second, or once the callback has run.
abbrev wait_once : Wake → Kit → Kit
wait_once completed s = example_write_callback s
wait_once _ s = s

abbrev usb_kill_urb : Kit → Kit
usb_kill_urb s = record s { flying = false }

unfoldable pub example_release : Bool → Wake → Kit → ℤ × Kit
example_release interrupted wake s =
    let s₁ = record s { locked = true } in
    let s₂ = if s₁.busy then wait_once wake s₁ else s₁ in
    let s₃ = if s₂.busy then usb_kill_urb s₂ else s₂ in
    if interrupted
    then (neg erestartsys, s)
    else (pos 0, record s₃ { busy = false; open_count = s₃.open_count - 1; locked = false })

-- What a loop `while (example_out_busy)` comes to, as in the driver that also reads.
pub data Waited : Type 0 where
  idle : Kit → List Wake → Waited
  stopped : Kit → Waited
  still : Kit → Waited

unfoldable pub wait_while_busy : List Wake → Kit → Waited
wait_while_busy [] s = if s.busy then still s else idle s []
wait_while_busy (signal ∷ ws) s = if s.busy then stopped s else idle s (signal ∷ ws)
wait_while_busy (timeout ∷ ws) s =
    let rest = wait_while_busy ws s in if s.busy then rest else idle s (timeout ∷ ws)
wait_while_busy (completed ∷ ws) s =
    let rest = wait_while_busy ws (example_write_callback s) in
    if s.busy then rest else idle s (completed ∷ ws)

-- The end of a write: its result, or an access to the byte before the buffer of a write of no byte.
pub data Outcome : Type 0 where
  returned : ℤ → Kit → Outcome
  asleep : Kit → Outcome
  out_of_bounds : Kit → Outcome
