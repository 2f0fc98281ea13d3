-- ===== src/Usb.antt =====
-- The driver of the Velleman K8055 kit, exemples/07-utilisation-bus-usb/example-VII-05.c: its
-- state, the opening and the release of its device, and the waits of its transfers.
pub mod Write
pub mod Read
pub mod Load
pub mod Probe
pub mod Listing
pub mod Sessions
pub mod Idle
pub mod Ready
pub mod Transfers
pub mod Packet
mod Tests
use ild.Base.{
  ℕ, ◌+◌, ◌-◌, ◌==◌, ltb, ℤ, pos, neg, Bool, true, false, not, if◌then◌else◌, List, [], ◌∷◌, Option,
  none, some,
}
use ild.Kernel.Errno.{ebusy, enodev, erestartsys}
use ild.Kernel.Copy.{Reply, reply, out_of_bounds}

-- What the driver looks at of an endpoint's descriptor.
pub record Endpoint : Type 0 where
  pub is_in : Bool
  pub is_interrupt : Bool
  pub max_packet_size : ℕ

-- One direction: `locked` is its mutex, and `buffer` and `urb` are there while a device is bound.
pub record Channel : Type 0 where
  pub endpoint : Option Endpoint
  pub urb : Bool
  pub buffer : Option (List ℕ)
  pub busy : Bool
  pub locked : Bool

-- `present`: `example_usb_device` is not NULL. `k_buffer` is the static one of the read, and `sent`
-- the packets that were submitted.
pub record Usb : Type 0 where
  pub open_count : ℕ
  pub locked : Bool
  pub present : Bool
  pub output : Channel
  pub input : Channel
  pub k_buffer : List ℕ
  pub sent : List (List ℕ)

abbrev pub out_buffer_size : ℕ
out_buffer_size = 8

abbrev pub in_buffer_size : ℕ
in_buffer_size = 8

-- `interrupted`: a signal ends the wait for the mutex.
unfoldable pub example_open : Bool → Usb → ℤ × Usb
example_open interrupted s =
    let s₁ = record s { locked = true } in
    let unlocked = record s₁ { locked = false } in
    if interrupted
    then (neg erestartsys, s)
    else (if ltb 0 s₁.open_count
        then (neg ebusy, unlocked)
        else (if not s₁.present
            then (neg enodev, unlocked)
            else (pos 0, record s₁ { open_count = s₁.open_count + 1; locked = false })))

-- The count is at least 1 when a file is closed.
unfoldable pub example_release : Bool → Usb → ℤ × Usb
example_release interrupted s =
    let s₁ = record s { locked = true } in
    if interrupted
    then (neg erestartsys, s)
    else (pos 0, record s₁ { open_count = s₁.open_count - 1; locked = false })

unfoldable pub example_write_callback : Channel → Channel
example_write_callback c = record c { busy = false }

unfoldable pub example_read_callback : Channel → Channel
example_read_callback c = record c { busy = false }

-- How `wait_event_interruptible_timeout` ends: by a signal, after a second, or once the callback
-- has run.
pub data Wake : Type 0 where
  signal : Wake
  timeout : Wake
  completed : Wake

-- What a loop `while (busy)` comes to: the way on, with the wake-ups that are left, the way out
-- after a signal, or sleep when the wake-ups are used up.
pub data Waited : Type 0 where
  idle : Channel → List Wake → Waited
  stopped : Waited
  still : Waited

unfoldable pub wait_while_busy : (Channel → Channel) → List Wake → Channel → Waited
wait_while_busy callback [] c = if c.busy then still else idle c []
wait_while_busy callback (signal ∷ ws) c = if c.busy then stopped else idle c (signal ∷ ws)
wait_while_busy callback (timeout ∷ ws) c =
    let rest = wait_while_busy callback ws c in if c.busy then rest else idle c (timeout ∷ ws)
wait_while_busy callback (completed ∷ ws) c =
    let rest = wait_while_busy callback ws (callback c) in
    if c.busy then rest else idle c (completed ∷ ws)

pub data Outcome : Type 0 where
  returned : Reply → Usb → Outcome
  asleep : Usb → Outcome
