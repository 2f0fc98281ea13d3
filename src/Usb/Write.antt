-- ===== src/Usb/Write.antt =====
-- The write system call of example-VII-05.c.
use ild.Base.{
  ℕ, ◌-◌, ◌%◌, ◌==◌, ℤ, pos, neg, is_zero, Bool, true, false, not, if◌then◌else◌, List, [], ◌∷◌,
  ◌++◌, Option, none, some, set, map,
}
use ild.Kernel.Errno.{eio, efault, einval, enodev, enomem, erestartsys}
use ild.Kernel.Copy.{reply, out_of_bounds, from_user}
use ild.Counter.{c_string}
use ild.Usb.{
  Usb, Wake, Waited, idle, stopped, still, wait_while_busy, example_write_callback, Outcome,
  returned, asleep,
}

-- What `usb_submit_urb` returns, and the status of the URB once it is completed.
pub record Transfer : Type 0 where
  pub submit : ℤ
  pub status : ℤ

abbrev pub lock_output : Usb → Usb
lock_output s = record s { output = record s.output { locked = true } }

abbrev pub unlock_output : Usb → Usb
unlock_output s = record s { output = record s.output { locked = false } }

-- `example_out_busy = 0` and the release of the mutex.
abbrev pub abandon : Usb → Usb
abandon s = unlock_output (record s { output = record s.output { busy = false } })

-- What follows the wait for the packet that was submitted.
abbrev pub written : Transfer → ℕ → Usb → Waited → Outcome
written transfer size s stopped = returned (reply (neg erestartsys) []) (abandon s)
written transfer size s still = asleep s
written transfer size s (idle c _) =
    let s₁ = record s { output = c } in
    if not (is_zero transfer.status)
    then returned (reply (neg eio) []) (abandon s₁)
    else returned (reply (pos size) []) (unlock_output s₁)

-- The low bytes of the eight values are put in the buffer and submitted.
unfoldable pub submit_packet : Transfer → List Wake → List ℕ → ℕ → Usb → Outcome
submit_packet transfer wakes values size s =
    let packet = map (λ v. v % 256) values in
    let s₁ = record s { output = record s.output { busy = true; buffer = some packet } } in
    if not (is_zero transfer.submit)
    then returned (reply transfer.submit []) (abandon s₁)
    else (let s₂ = record s₁ { sent = s.sent ++ packet ∷ [] } in
        written transfer size s₂ (wait_while_busy example_write_callback wakes s₂.output))

-- What follows the wait for the last transfer.
abbrev pub turn : Transfer → List ℕ → ℕ → Usb → Waited → Outcome
turn transfer values size s stopped = returned (reply (neg erestartsys) []) (unlock_output s)
turn transfer values size s still = asleep s
turn transfer values size s (idle c rest) =
    submit_packet transfer rest values size (record s { output = c })

-- With the mutex taken.
unfoldable pub write_values : Transfer → List Wake → List ℕ → ℕ → Usb → Outcome
write_values transfer wakes values size s =
    if not s.present
    then returned (reply (neg enodev) []) (unlock_output s)
    else turn transfer values size s (wait_while_busy example_write_callback wakes s.output)

-- `sscanf` gives the eight numbers of the text, as 32-bit patterns, or does not find them. The copy
-- of the text belongs to the call. A write of no byte stores its NUL before that copy.
unfoldable pub example_write :
    (List ℕ → Option (List ℕ)) → Bool → Bool → Transfer → List Wake → List ℕ → ℕ → ℕ → Usb → Outcome
example_write sscanf kmalloc interrupted transfer wakes u_buffer size left s =
    let buffer = set (from_user u_buffer size left) (size - 1) 0 in
    if not kmalloc
    then returned (reply (neg enomem) []) s
    else (if not (left == 0)
        then returned (reply (neg efault) []) s
        else (if size == 0 then returned out_of_bounds s else elim (sscanf (c_string buffer)) [
          | none ↦ returned (reply (neg einval) []) s
          | some values ↦
              if interrupted
              then returned (reply (neg erestartsys) []) s
              else write_values transfer wakes values size (lock_output s)
        ]))
