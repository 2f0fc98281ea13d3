-- ===== src/Kit/Write.antt =====
-- The write system call of example-VII-04.c.
use ild.Base.{
  ℕ, ◌-◌, ◌%◌, ◌==◌, ℤ, pos, neg, is_zero, Bool, true, false, not, if◌then◌else◌, List, [], ◌∷◌,
  ◌++◌, Option, none, some, set, map,
}
use ild.Kernel.Errno.{eio, efault, einval, enodev, enomem, erestartsys}
use ild.Kernel.Copy.{from_user}
use ild.Kernel.Task.{c_string}
use ild.Usb.{Wake}
use ild.Usb.Write.{Transfer}
use ild.Kit.{
  Kit, Waited, idle, stopped, still, wait_while_busy, Outcome, returned, asleep, out_of_bounds,
}

abbrev pub unlock : Kit → Kit
unlock s = record s { out_locked = false }

abbrev pub abandon : Kit → Kit
abandon s = unlock (record s { busy = false })

-- What follows the wait for the packet that was submitted.
unfoldable pub finish : Transfer → ℕ → Waited → Outcome
finish transfer length (stopped s) = returned (neg erestartsys) (abandon s)
finish transfer length (still s) = asleep s
finish transfer length (idle s _) =
    if not (is_zero transfer.status)
    then returned (neg eio) (abandon s)
    else returned (pos length) (unlock s)

unfoldable pub submit_packet : Transfer → List Wake → List ℕ → ℕ → Kit → Outcome
submit_packet transfer wakes values length s =
    let packet = map (λ v. v % 256) values in
    let s₁ = record s { busy = true; buffer = some packet } in
    if not (is_zero transfer.submit)
    then returned transfer.submit (abandon s₁)
    else finish transfer length
        (wait_while_busy wakes (record s₁ { flying = true; sent = s.sent ++ packet ∷ [] }))

-- What follows the wait for the last transfer.
unfoldable pub turn : Transfer → List ℕ → ℕ → Waited → Outcome
turn transfer values length (stopped s) = returned (neg erestartsys) (unlock s)
turn transfer values length (still s) = asleep s
turn transfer values length (idle s rest) = submit_packet transfer rest values length s

unfoldable pub write_values : Transfer → List Wake → List ℕ → ℕ → Kit → Outcome
write_values transfer wakes values length s =
    if not s.present
    then returned (neg enodev) (unlock s)
    else turn transfer values length (wait_while_busy wakes s)

-- The eight numbers of the caller's text, or the end of the call: the same code starts the write of
-- example-VII-03.c. A write of no byte stores its NUL before the copy.
pub data Parsed : Type 0 where
  numbers : List ℕ → Parsed
  refused : ℤ → Parsed
  misplaced : Parsed

unfoldable pub parse_values : (List ℕ → Option (List ℕ)) → Bool → List ℕ → ℕ → ℕ → Parsed
parse_values sscanf kmalloc data_ length left =
    let buffer = set (from_user data_ length left) (length - 1) 0 in
    if not kmalloc
    then refused (neg enomem)
    else (if not (left == 0)
        then refused (neg efault)
        else (if length == 0 then misplaced else elim (sscanf (c_string buffer)) [
          | none ↦ refused (neg einval)
          | some values ↦ numbers values
        ]))

-- `interrupted`: a signal ends the wait for the mutex.
unfoldable pub write_parsed : Bool → Transfer → List Wake → ℕ → Kit → Parsed → Outcome
write_parsed interrupted transfer wakes length s misplaced = out_of_bounds s
write_parsed interrupted transfer wakes length s (refused err) = returned err s
write_parsed interrupted transfer wakes length s (numbers values) =
    if interrupted
    then returned (neg erestartsys) s
    else write_values transfer wakes values length (record s { out_locked = true })

unfoldable pub example_write :
    (List ℕ → Option (List ℕ)) → Bool → Bool → Transfer → List Wake → List ℕ → ℕ → ℕ → Kit → Outcome
example_write sscanf kmalloc interrupted transfer wakes data_ length left s =
    write_parsed interrupted transfer wakes length s (parse_values sscanf kmalloc data_ length left)
