-- ===== src/Usb/Ready.antt =====
-- The mutexes and the busy flags of example-VII-05.c between the calls.
mod Writes
mod Reads
use ild.Base.{
  ℕ, zero, suc, ◌+◌, ◌%◌, ◌≡◌, ◌⊎◌, inl, inr, refl, ap, ◌∙◌, ◌==◌, pos, neg, is_zero, ℤ, ltb,
  length, ◌≤◌, Bool, true, false, not, if◌then◌else◌, List, [], ◌∷◌, ◌++◌, Option, none, some, map,
  set, ◌-◌, replicate, Bool-cases, Option-cases, arith,
}
use mathlib.Core.Path.{subst, sym}
use ild.Kernel.Errno.{ebusy, erestartsys}
use ild.Kernel.Copy.{Reply, reply, out_of_bounds, from_user, overwrite}
use ild.Counter.{c_string}
use ild.Usb.{
  in_buffer_size, Usb, Channel, example_open, example_release, Wake, signal, timeout, completed,
  Waited, idle, stopped, still, wait_while_busy, example_write_callback, example_read_callback,
  Outcome, returned, asleep,
}
use ild.Usb.Write
use ild.Usb.Read
use ild.Usb.Read.{Fetched, ready, ended, waiting}
use ild.Usb.Idle.{
  IsIdle, Sleeps, LeavesWrite, LeavesRead, LeavesFetch, wait_idle, Ends, wait-Ends, either,
  either_case, callback_idle, read_callback_idle,
}
use ild.Usb.Ready.Writes.{example_write-Leaves}
use ild.Usb.Ready.Reads.{example_read-Leaves}

module _ {s : Usb} (i : IsIdle s) where
  -- A call of the device that starts with every mutex free and the busy flag of each direction
  -- clear leaves them so when it returns, whatever the kernel and the device answer; a call that
  -- sleeps holds the mutex and the flag of its direction alone. Of the flags only: a signal during
  -- a wait clears the flag of a transfer that is still under way. The device is taken to send
  -- packets of at most eight bytes.
  pub usb_calls-IsIdle :
      (sscanf : List ℕ → Option (List ℕ)) (kmalloc interrupted : Bool) (out : Write.Transfer)
      → (in_ : Read.Transfer) (wakes : List Wake) (u_buffer : List ℕ) (size left offset : ℕ)
      → length in_.bytes ≤ in_buffer_size
      → IsIdle (example_open interrupted s).1
        × IsIdle (example_release interrupted s).1
        × LeavesWrite
            (Write.example_write sscanf kmalloc interrupted out wakes u_buffer size left s)
        × LeavesRead (Read.example_read interrupted in_ wakes size left offset s).0
  unfolding example_open example_release
  usb_calls-IsIdle sscanf kmalloc interrupted out in_ wakes u_buffer size left offset small = (
    opened interrupted,
    released interrupted,
    example_write-Leaves i sscanf kmalloc interrupted out wakes u_buffer size left,
    example_read-Leaves i interrupted in_ wakes size left offset small,
  )
    where
      free : (count : ℕ) → IsIdle (record s { open_count = count; locked = false })
      free count = record {
        unlocked = refl;
        output_unlocked = i.output_unlocked;
        output_idle = i.output_idle;
        input_unlocked = i.input_unlocked;
        input_idle = i.input_idle;
      }

      opened : (b : Bool) → IsIdle (example_open b s).1
      opened true = i
      opened false =
          either (λ (r : ℤ × Usb). IsIdle r.1) (ltb 0 s.open_count) _ _ (free s.open_count)
            (either (λ (r : ℤ × Usb). IsIdle r.1) (not s.present) _ _ (free s.open_count)
              (free (s.open_count + 1)))

      released : (b : Bool) → IsIdle (example_release b s).1
      released true = i
      released false = free (s.open_count - 1)
