-- ===== src/Ticks/Blocking.antt =====
-- exemples/05-acces-au-materiel/example-V-08.c, whose read system call waits for a value, and
-- example-V-09.c, whose read system call waits unless the file was opened with O_NONBLOCK.
use ild.Base.{ℕ, ℤ, Bool, false, List}
use ild.Kernel.Held.{Held}
use ild.Gpio.{Env}
use ild.Gpio.Input.{init_input, exit_input}
use ild.Ticks.{
  Ticks, spin_lock, spin_unlock, wake_up, push_tick, take_value, Wake, Outcome, read_loop,
}

-- The loop without the test of O_NONBLOCK.
unfoldable pub blocking_read : List Wake → ℕ → ℕ → Ticks → Outcome
blocking_read wakes size left s = read_loop (take_value size left) false wakes (spin_lock s)

unfoldable pub nonblocking_read : Bool → List Wake → ℕ → ℕ → Ticks → Outcome
nonblocking_read nonblock wakes size left s =
    read_loop (take_value size left) nonblock wakes (spin_lock s)

unfoldable pub blocking_handler : ℕ → Ticks → Ticks
blocking_handler jiffies s = wake_up (spin_unlock (push_tick jiffies (spin_lock s)))

unfoldable pub nonblocking_handler : ℕ → Ticks → Ticks
nonblocking_handler jiffies s = wake_up (spin_unlock (push_tick jiffies (spin_lock s)))

unfoldable pub blocking_init : Env → Held → ℤ × Held
blocking_init = init_input

unfoldable pub blocking_exit : Held → Held
blocking_exit = exit_input

unfoldable pub nonblocking_init : Env → Held → ℤ × Held
nonblocking_init = init_input

unfoldable pub nonblocking_exit : Held → Held
nonblocking_exit = exit_input
