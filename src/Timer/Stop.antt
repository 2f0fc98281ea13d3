-- ===== src/Timer/Stop.antt =====
-- What the removal of a module leaves of its timer.
use ild.Base.{◌≡◌, refl, true, false, not, ◌&&◌, ◌||◌, some, arith}
use ild.Timer.{
  start_function, example_timer_function, timer_exit, hrtimer_restart, hrtimer_exit, Timer, Event,
  expire, finish, remove, example_init, timer_step, hrtimer_step, Reach, here, next,
}

-- Nothing of the timer outlives the module.
abbrev pub IsQuiet : Timer → Type 0
IsQuiet t = (not t.loaded && (t.pending || t.running)) ≡ false

hrtimer_step-IsQuiet : (e : Event) (t u : Timer) → IsQuiet t → hrtimer_step e t ≡ some u → IsQuiet u
unfolding hrtimer_step start_function hrtimer_restart hrtimer_exit
hrtimer_step-IsQuiet expire t u h e = ground arith
hrtimer_step-IsQuiet finish t u h e = ground arith
hrtimer_step-IsQuiet remove t u h e = ground arith

hrtimer-IsQuiet : {t u : Timer} → IsQuiet t → Reach hrtimer_step t u → IsQuiet u
hrtimer-IsQuiet h here = h
hrtimer-IsQuiet h (next {u} {v} e r s) = hrtimer_step-IsQuiet e u v (hrtimer-IsQuiet h r) s

-- The timer expires, the module is removed while the function runs, and the function ends.
abbrev pub left_set : Timer
left_set = record { pending = true; running = false; loaded = false }

timer_outlives : Reach timer_step example_init left_set
unfolding timer_step example_init start_function example_timer_function timer_exit
timer_outlives = next finish (next remove (next expire here refl) refl) refl

-- In every order of the events, the timer of example-III-04.c is neither set nor running once its
-- module is removed. That of example-III-03.c can be set again after the removal.
pub removals-IsQuiet :
    {t u : Timer}
    → IsQuiet t
    → Reach hrtimer_step t u
    → IsQuiet u × Reach timer_step example_init left_set
removals-IsQuiet h r = (hrtimer-IsQuiet h r, timer_outlives)
