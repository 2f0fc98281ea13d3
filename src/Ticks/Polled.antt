-- ===== src/Ticks/Polled.antt =====
-- exemples/05-acces-au-materiel/example-V-07.c: a read system call that never waits.
use ild.Base.{ℕ, ℤ, pos, List, [], ◌∷◌, ◌==◌, if◌then◌else◌}
use ild.Kernel.Copy.{Reply, reply}
use ild.Kernel.Held.{Held}
use ild.Gpio.{Env}
use ild.Gpio.Input.{init_input, exit_input}
use ild.Ticks.Queue.{Call, interrupt, poll}
use ild.Ticks.{Ticks, spin_lock, spin_unlock, push_tick, take_value}

unfoldable pub example_read : ℕ → ℕ → Ticks → Reply × Ticks
example_read size left s =
    let s = spin_lock s in
    if s.array_end == 0 then (reply (pos 0) [], spin_unlock s) else take_value size left s

unfoldable pub example_handler : ℕ → Ticks → Ticks
example_handler jiffies s = spin_unlock (push_tick jiffies (spin_lock s))

unfoldable pub example_init : Env → Held → ℤ × Held
example_init = init_input

unfoldable pub example_exit : Held → Held
example_exit = exit_input

-- A sequence of interrupts and reads, with what the reads answer.
unfoldable pub run : List Call → Ticks → List Reply × Ticks
run [] s = ([], s)
run (interrupt j ∷ cs) s = run cs (example_handler j s)
run (poll size left ∷ cs) s =
    let (r, s') = example_read size left s in let (rs, t) = run cs s' in (r ∷ rs, t)
