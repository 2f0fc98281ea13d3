-- ===== src/Timer.antt =====
-- Timers that set themselves again, exemples/03-api-du-noyau/example-III-03.c and example-III-04.c
-- and exemples/05-acces-au-materiel/example-V-11.c: a timer and its module, one step at a time.
pub mod Jitter
pub mod Stop
mod Thread
pub mod Mapped
mod Tests
use ild.Base.{◌≡◌, ◌&&◌, not, if◌then◌else◌, Bool, true, false, Option, none, some}

-- Whether the timer is set, whether its function runs, and whether the module is there.
pub record Timer : Type 0 where
  pub pending : Bool
  pub running : Bool
  pub loaded : Bool

-- What happens: the timer expires, its function ends, the module is removed.
pub data Event : Type 0 where
  expire : Event
  finish : Event
  remove : Event

-- `add_timer` and `hrtimer_start`.
unfoldable pub example_init : Timer
example_init = record { pending = true; running = false; loaded = true }

-- `timer_delete` takes a timer that is set away, and does not wait for its function, which ends
-- with `mod_timer`.
unfoldable pub example_timer_function : Timer → Timer
example_timer_function t = record t { pending = true; running = false }

unfoldable pub timer_exit : Timer → Timer
timer_exit t = record t { pending = false; loaded = false }

-- A timer that is set expires when its function does not run already.
unfoldable pub start_function : Timer → Option Timer
start_function t =
    if t.pending && not t.running then some (record t { pending = false; running = true }) else none

unfoldable pub timer_step : Event → Timer → Option Timer
timer_step expire t = start_function t
timer_step finish t = if t.running then some (example_timer_function t) else none
timer_step remove t = if t.loaded then some (timer_exit t) else none

-- `hrtimer_cancel` waits for the function, which ends by returning HRTIMER_RESTART.
unfoldable pub hrtimer_restart : Timer → Timer
hrtimer_restart t = record t { pending = true; running = false }

unfoldable pub hrtimer_exit : Timer → Option Timer
hrtimer_exit t = if not t.running then some (record t { pending = false; loaded = false }) else none

unfoldable pub hrtimer_step : Event → Timer → Option Timer
hrtimer_step expire t = start_function t
hrtimer_step finish t = if t.running then some (hrtimer_restart t) else none
hrtimer_step remove t = let gone = hrtimer_exit t in if t.loaded then gone else none

pub data Reach (step : Event → Timer → Option Timer) (t : Timer) : Timer → Type 0 where
  here : Reach step t t
  next : {u v : Timer} (e : Event) → Reach step t u → step e u ≡ some v → Reach step t v
