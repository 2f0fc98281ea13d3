-- ===== src/Chardev/Locked.antt =====
-- exemples/04-driver-caracteres/example-IV-08.c: `example_read` with a mutex.
use ild.Base.{ℕ, Option, none, some, [], neg, if◌then◌else◌}
use ild.Kernel.Errno.{erestartsys}
use ild.Kernel.Copy.{reply}
use ild.Chardev.{
  Phase, entering, locked, stored, looping, chosen, leaving, returned, State, Event, call, run,
  interrupt, tick, move_to, deadline, time_before, mark, give, start_call, next_tick,
}

-- `mutex_lock_interruptible` takes a free mutex and waits for one that is held.
unfoldable pub take_mutex : ℕ → ℕ → ℕ → Option ℕ → State → Option State
take_mutex p size left none s = some (move_to p (locked size left) (record s { owner = some p }))
take_mutex p size left (some q) s = none

unfoldable pub locked_read : ℕ → Phase → State → Option State
locked_read p (entering size left) s = take_mutex p size left s.owner s
locked_read p (locked size left) s =
    some (move_to p (stored size left) (record s { current_pid = p }))
locked_read p (stored size left) s = some (move_to p (looping size left (deadline s.jiffies)) s)
locked_read p (looping size left delay) s =
    if time_before s.jiffies delay
    then some s
    else some (move_to p (chosen size left (mark s.current_pid p)) s)
locked_read p (chosen size left m) s =
    some (move_to p (leaving size left m) (record s { owner = none }))
locked_read p (leaving size left m) s = some (move_to p (returned size left (give m size left)) s)
locked_read p _ s = none

-- A signal ends the wait for the mutex.
unfoldable pub interrupt_read : ℕ → Phase → State → Option State
interrupt_read p (entering size left) s =
    some (move_to p (returned size left (reply (neg erestartsys) [])) s)
interrupt_read p _ s = none

unfoldable pub locked_step : Event → State → Option State
locked_step (call p size left) s = start_call p size left (s.phases p) s
locked_step (run p) s = locked_read p (s.phases p) s
locked_step (interrupt p) s = interrupt_read p (s.phases p) s
locked_step tick s = some (next_tick s)
