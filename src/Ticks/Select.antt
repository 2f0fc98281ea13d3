-- ===== src/Ticks/Select.antt =====
-- exemples/05-acces-au-materiel/example-select.c: a read system call that looks at the size of the
-- caller's buffer before it removes the value, and a poll method.
use ild.Base.{
  ℕ, ◌+◌, ℤ, pos, neg, Bool, List, [], ◌∷◌, ◌++◌, ltb, ◌==◌, if◌then◌else◌, not, length, get_or,
}
use ild.Kernel.Errno.{enomem, efault}
use ild.Kernel.Copy.{Reply, reply}
use ild.Kernel.Held.{Held}
use ild.Gpio.{Env}
use ild.Gpio.Input.{init_input, exit_input}
use ild.Ticks.{
  Ticks, spin_lock, spin_unlock, wake_up, push_tick, pop_first, k_buffer, Wake, Outcome, read_loop,
}

-- What follows the wait, entered with the lock taken.
unfoldable pub check_and_take : ℕ → ℕ → Ticks → Reply × Ticks
check_and_take size left s =
    let text = k_buffer (get_or s.array 0 0) in
    if ltb size (length text + 1) then (reply (neg enomem) [], spin_unlock s) else (
      (if not (left == 0)
          then reply (neg efault) []
          else reply (pos (length text + 1)) (text ++ 0 ∷ [])),
      spin_unlock (pop_first s),
    )

unfoldable pub example_read : Bool → List Wake → ℕ → ℕ → Ticks → Outcome
example_read nonblock wakes size left s =
    read_loop (check_and_take size left) nonblock wakes (spin_lock s)

-- `POLLIN | POLLRDNORM` is 0x41.
unfoldable pub example_poll : Ticks → ℕ × Ticks
example_poll s = let s = spin_lock s in ((if ltb 0 s.array_end then 0x41 else 0), spin_unlock s)

unfoldable pub example_handler : ℕ → Ticks → Ticks
example_handler jiffies s = wake_up (spin_unlock (push_tick jiffies (spin_lock s)))

unfoldable pub example_init : Env → Held → ℤ × Held
example_init = init_input

unfoldable pub example_exit : Held → Held
example_exit = exit_input
