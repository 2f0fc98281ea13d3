-- ===== src/Chardev/Tests.antt =====
-- Runs of exemples/04-driver-caracteres/example-IV-07.c and example-IV-08.c.
use ild.Base.{
  true, false, neg, ◌≡◌, refl, List, [], ◌∷◌, ◌++◌, replicate, Option, none, some, pos, neg, arith,
}
use ild.Kernel.Errno.{enotty}
use ild.Kernel.Task.{Task}
use ild.Kernel.Format.{decimal}
use ild.Kernel.Buffer.{reference_read, reference_read-IsSimpleRead}
use ild.Text.Cat.{cat}
use ild.Counter.{Command}
use ild.Chardev.Ids.{example_ioctl, flag_read, flag_text}
use ild.Chardev.Program.{ioctl_main, ioctl_main-cat}
use ild.Kernel.Copy.{reply}
use ild.Chardev.{
  outside, returned, dot, sharp, State, Event, call, run, interrupt, tick, Reach, here, follow,
  follow-Reach, give, start_call, next_tick, deadline, time_before, mark,
}
use ild.Chardev.Race.{unlocked_step}
use ild.Chardev.Locked.{take_mutex, locked_read, interrupt_read, locked_step}
use ild.Chardev.Exclusion.{IsExclusive}
use ild.Chardev.Served.{Reach-IsExclusive}
use ild.Chardev.Collision.{readers_collide}

abbrev start : State
start = record { phases = λ p. outside; current_pid = 0; owner = none; jiffies = 0 }

abbrev state_after : Option State → State
state_after none = start
state_after (some s) = s

-- The first reader is in its loop when the second one asks for the mutex; a third one gives up.
abbrev script : List Event
script =
    call 7 2 0 ∷ run 7 ∷ run 7 ∷ run 7 ∷ run 7 ∷ call 8 2 0 ∷ call 9 2 0 ∷ interrupt 9 ∷ []
    ++ replicate 10 tick
    ++ run 7 ∷ run 7 ∷ run 8 ∷ run 7 ∷ []

start-IsExclusive : IsExclusive start
start-IsExclusive = record {
  holds = λ p h. ground arith;
  held = λ p h. ground arith;
  sound = λ p. tt;
}

Reach-IsExclusive_example : IsExclusive (state_after (follow locked_step script start))
unfolding follow locked_step locked_read take_mutex interrupt_read start_call next_tick deadline
    time_before mark give
Reach-IsExclusive_example =
    Reach-IsExclusive start-IsExclusive (follow-Reach locked_step script here refl)

first_gets_dot :
    (state_after (follow locked_step script start)).phases 7
    ≡ returned 2 0 (reply (pos 1) (b'.' ∷ 0 ∷ []))
unfolding follow locked_step locked_read take_mutex interrupt_read start_call next_tick deadline
    time_before mark give
first_gets_dot = refl

readers_collide_example :
    (t : State) × Reach unlocked_step start t
    × (t.phases 7 ≡ returned 2 0 (give sharp 2 0))
    × (t.phases 8 ≡ returned 2 0 (give dot 2 0))
readers_collide_example = readers_collide start 7 8 2 0 refl refl refl (omega arith)

abbrev shell : Task
shell = record { pid = 12; ppid = 1; comm = b's' ∷ b'h' ∷ [] }

abbrev unknown : Command
unknown = record { ioc_type = b'x'; ioc_nr = 3 }

-- "PID= 12\n"
without_parent : flag_text shell 0 ≡ 80 ∷ 73 ∷ 68 ∷ 61 ∷ 32 ∷ 49 ∷ 50 ∷ 10 ∷ []
unfolding flag_text decimal
without_parent = refl

ioctl_main-cat_example :
    let after = ioctl_main 3 true (some 0) 0 0 1 in
    (after ≡ record { success = true; printed = some 0; flag = 0 })
    × (ioctl_main 2 true (some 0) 0 0 after.flag ≡ after)
    × (example_ioctl unknown 7 0 after.flag ≡ record { ret = neg enotty; given = none; flag = 0 })
    × (cat (flag_read reference_read shell) 128 9 after.flag 0 [] ≡ some (flag_text shell 0, 0))
    × (ioctl_main 1 true (some 0) 0 0 1 ≡ record { success = false; printed = none; flag = 1 })
    × (ioctl_main 3 false (some 0) 0 0 1 ≡ record { success = false; printed = none; flag = 1 })
ioctl_main-cat_example =
    ioctl_main-cat 3 (some 0) 1 unknown 7 0 true reference_read shell 9 (omega arith) refl
      reference_read-IsSimpleRead (omega arith)
