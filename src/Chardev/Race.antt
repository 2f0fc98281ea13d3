-- ===== src/Chardev/Race.antt =====
-- exemples/04-driver-caracteres/example-IV-07.c: `example_read` with no protection of
-- `current_pid`.
use ild.Base.{ℕ, Option, none, some, if◌then◌else◌}
use ild.Chardev.{
  Phase, entering, stored, looping, chosen, returned, State, Event, call, run, interrupt, tick,
  move_to, deadline, time_before, mark, give, start_call, next_tick,
}

-- One step of a reader. A turn of the loop changes nothing.
unfoldable pub unlocked_read : ℕ → Phase → State → Option State
unlocked_read p (entering size left) s =
    some (move_to p (stored size left) (record s { current_pid = p }))
unlocked_read p (stored size left) s = some (move_to p (looping size left (deadline s.jiffies)) s)
unlocked_read p (looping size left delay) s =
    if time_before s.jiffies delay
    then some s
    else some (move_to p (chosen size left (mark s.current_pid p)) s)
unlocked_read p (chosen size left m) s = some (move_to p (returned size left (give m size left)) s)
unlocked_read p _ s = none

-- No call of the driver can be interrupted.
unfoldable pub unlocked_step : Event → State → Option State
unlocked_step (call p size left) s = start_call p size left (s.phases p) s
unlocked_step (run p) s = unlocked_read p (s.phases p) s
unlocked_step (interrupt p) s = none
unlocked_step tick s = some (next_tick s)
