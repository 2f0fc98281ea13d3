-- ===== src/Timer/Tests.antt =====
-- Timers at small inputs.
use ild.Kernel.Errno.{einval}
use ild.Base.{◌≤◌, ◌+◌, true, ◌≡◌, refl, pos, neg, false, [], ◌∷◌, arith}
use ild.Kernel.Format.{decimal}
use ild.Timer.{
  start_function, hrtimer_restart, hrtimer_exit, Timer, remove, expire, finish, example_init,
  timer_step, hrtimer_step, Reach, here, next,
}
use ild.Timer.Jitter.{
  start, example_htimer_function, run, least, greatest, run_extremes, example_period,
}
use ild.Timer.Stop.{IsQuiet, left_set}
use ild.Timer.Thread.{
  Thread, start as thread_start, here as still, next as go_on, Runs, IsHeld, GoesOn, turn, stop,
  stopped, exit_begins, exit_ends, thread_init, thread_step, example_thread_function,
  removals-ended,
}
use ild.Timer.Mapped

run_extremes_example :
    let j = run (10 ∷ 14 ∷ 15 ∷ 25 ∷ []) start in
    (j.elapsed_min ≡ least 4 14 (15 ∷ 25 ∷ [])) × (j.elapsed_max ≡ greatest 4 14 (15 ∷ 25 ∷ []))
run_extremes_example =
    run_extremes 10 14 (15 ∷ 25 ∷ []) (omega arith) (omega arith)
      (omega arith, (omega arith, omega arith))

-- The clock is set back from 20 to 12: the minimum, which was 1, is lost at the next run.
set_back_loses : (run (10 ∷ 11 ∷ 20 ∷ 12 ∷ 17 ∷ []) start).elapsed_min ≡ 5
unfolding run example_htimer_function
set_back_loses = refl

millisecond : example_period 1000 ≡ 1000000
unfolding example_period
millisecond = refl

abbrev gone : Timer
gone = record { pending = false; running = false; loaded = false }

cancelled : Reach hrtimer_step example_init gone
unfolding hrtimer_step example_init start_function hrtimer_restart hrtimer_exit
cancelled = next remove (next finish (next expire here refl) refl) refl

-- "\rm: 12"
writes_tick :
    Mapped.example_timer_function (b'm' ∷ []) 12 (1 ∷ 2 ∷ 3 ∷ 4 ∷ 5 ∷ 6 ∷ 7 ∷ 8 ∷ [])
    ≡ 13 ∷ 109 ∷ 58 ∷ 32 ∷ 49 ∷ 50 ∷ 0 ∷ 8 ∷ []
unfolding Mapped.example_timer_function decimal
writes_tick = refl

refuses_two_pages : Mapped.example_mmap 4096 8192 (pos 0) ≡ neg einval
unfolding Mapped.example_mmap
refuses_two_pages = refl

-- Told to stop after the test of its loop, the thread prints once more and ends.
abbrev told_in_body : Thread
told_in_body = record {
  alive = true;
  in_body = true;
  should_stop = true;
  loaded = true;
  printed = 0;
}

abbrev removed_thread : Thread
removed_thread = record {
  alive = false;
  in_body = false;
  should_stop = true;
  loaded = false;
  printed = 1;
}

told : Runs thread_start (stop ∷ turn ∷ []) told_in_body
unfolding thread_init thread_step example_thread_function exit_begins
told = go_on stop (go_on turn still refl) refl

ends : Runs told_in_body (stopped ∷ turn ∷ turn ∷ []) removed_thread
unfolding thread_step example_thread_function exit_ends
ends = go_on stopped (go_on turn (go_on turn still refl) refl) refl

removals-ended_example :
    IsQuiet gone
    × Reach timer_step example_init left_set
    × IsHeld told_in_body
    × IsHeld removed_thread
    × (3 ≤ 3)
    × (1 ≤ 0 + 1)
    × GoesOn removed_thread
unfolding example_init
removals-ended_example = removals-ended refl cancelled told refl ends
