-- ===== src/Ticks/Tests.antt =====
-- The tick devices at small inputs.
use ild.Base.{
  some, ℕ, map, length, ◌≡◌, refl, pos, true, false, List, [], ◌∷◌, ◌++◌, replicate, arith,
}
use ild.Kernel.Copy.{reply}
use ild.Kernel.Format.{show_ld, decimal}
use ild.Kernel.Held.{Held}
use ild.Gpio.{Env}
use ild.Gpio.Input.{init_input, exit_input}
use ild.Ticks.{Ticks, tick, Wake, woken, take_value, send_line, read_loop, push_tick, pop_first}
use ild.Ticks.Laws.{IsValid, contents}
use ild.Ticks.Refine.{Refines}
use ild.Ticks.Queue
use ild.Ticks.Queue.{Call, interrupt, poll, answers, served, accepted, final}
use ild.Ticks.Polled
use ild.Ticks.Blocking.{
  blocking_read, nonblocking_read, nonblocking_handler, blocking_init, blocking_exit,
  nonblocking_init, nonblocking_exit,
}
use ild.Ticks.PerOpen
use ild.Ticks.Select
use ild.Ticks.Reads.{reads-Refines}
use ild.Ticks.History.{run_fifo}
use ild.Ticks.Watch.{Turn, waited, signal, set_up, open_all, highest, select_main, outside}
use ild.Ticks.Selects.{Ends, select_main-Ends}
use ild.Ticks.Turns.{nonblocking_cat-turns}
use ild.Ticks.Program.{text, prompt, cat_turn, nonblocking_cat, texts, prompts, wheel, line, calls}

abbrev empty : Ticks
empty = record { array = replicate 1024 0; array_end = 0; locked = false; wakeups = 0 }

abbrev two : Ticks
two = record { array = 41 ∷ 42 ∷ replicate 1022 0; array_end = 2; locked = false; wakeups = 2 }

two-IsValid : IsValid two
two-IsValid = record { size = refl; within = omega arith }

empty-IsValid : IsValid empty
empty-IsValid = record { size = refl; within = omega arith }

-- The text "41\n" and its NUL.
reads_41 : (Polled.example_read 80 0 two).0 ≡ reply (pos 4) (52 ∷ 49 ∷ 10 ∷ 0 ∷ [])
unfolding Polled.example_read take_value send_line show_ld decimal
reads_41 = refl

abbrev one_tick : List Wake
one_tick = woken [] ∷ woken (tick 7 ∷ []) ∷ []

abbrev nothing : Held
nothing = record { resources = []; faults = 0 }

abbrev all_fine : Env
all_fine = record {
  gpio_request = λ n. pos 0;
  direction_input = pos 0;
  direction_output = pos 0;
  request_irq = pos 0;
  misc_register = pos 0;
}

-- The modules that wait or poll are set up as that of example-V-07.c.
set_up_alike :
    (Polled.example_exit (Polled.example_init all_fine nothing).1 ≡ nothing)
    × (blocking_exit (blocking_init all_fine nothing).1 ≡ nothing)
    × (nonblocking_exit (nonblocking_init all_fine nothing).1 ≡ nothing)
    × (Select.example_exit (Select.example_init all_fine nothing).1 ≡ nothing)
unfolding Polled.example_init Polled.example_exit blocking_init blocking_exit nonblocking_init
    nonblocking_exit Select.example_init Select.example_exit init_input exit_input
set_up_alike = (refl, refl, refl, refl)

abbrev script : List Call
script = interrupt 5 ∷ poll 80 0 ∷ poll 80 0 ∷ interrupt 6 ∷ []

run_fifo_example :
    ((Polled.run script empty).0 ≡ answers script [])
    × (served script [] ++ contents (Polled.run script empty).1 ≡ accepted script [])
run_fifo_example = run_fifo script empty-IsValid

reads-Refines_example :
    Refines
      (blocking_read one_tick 2 0 two)
      (Queue.read (Queue.take_first 2 0) false one_tick (41 ∷ 42 ∷ []))
    × Refines
        (nonblocking_read false one_tick 2 0 two)
        (Queue.read (Queue.take_first 2 0) false one_tick (41 ∷ 42 ∷ []))
    × Refines
        (PerOpen.example_read false one_tick 2 0 two)
        (Queue.read (Queue.take_first 2 0) false one_tick (41 ∷ 42 ∷ []))
    × Refines
        (Select.example_read false one_tick 2 0 two)
        (Queue.read (Queue.keep_unless_fits 2 0) false one_tick (41 ∷ 42 ∷ []))
reads-Refines_example = reads-Refines false one_tick 2 0 two-IsValid

abbrev turns_with_one_value : List (List ℕ)
turns_with_one_value = [] ∷ (5 ∷ []) ∷ [] ∷ []

-- A prompt, a text and the prompt that follows the first.
cat_of_one :
    (nonblocking_cat turns_with_one_value 3 empty).0
    ≡ prompt 3 ∷ text (53 ∷ 10 ∷ 0 ∷ []) ∷ prompt 0 ∷ []
unfolding nonblocking_cat cat_turn nonblocking_read nonblocking_handler read_loop take_value
    send_line show_ld decimal push_tick pop_first
cat_of_one = refl

nonblocking_cat-turns_example :
    (length (nonblocking_cat turns_with_one_value 0 two).0 ≡ 3)
    × (texts (nonblocking_cat turns_with_one_value 0 two).0
        ≡ map line (served (calls turns_with_one_value) (41 ∷ 42 ∷ [])))
    × (served (calls turns_with_one_value) (41 ∷ 42 ∷ [])
          ++ contents (nonblocking_cat turns_with_one_value 0 two).1
        ≡ (41 ∷ 42 ∷ []) ++ accepted (calls turns_with_one_value) (41 ∷ 42 ∷ []))
    × (prompts (nonblocking_cat turns_with_one_value 0 two).0
        ≡ wheel 0 (length (prompts (nonblocking_cat turns_with_one_value 0 two).0)))
nonblocking_cat-turns_example = nonblocking_cat-turns turns_with_one_value two-IsValid

-- Three files, of which the second is the highest.
opened : set_up true (pos 3 ∷ pos 5 ∷ pos 4 ∷ []) ≡ some (3 ∷ 5 ∷ 4 ∷ [], 6)
unfolding set_up open_all highest
opened = refl

abbrev watched : List Turn
watched = waited ([] ∷ (7 ∷ []) ∷ []) ∷ waited [] ∷ signal ∷ waited [] ∷ []

select_main-Ends_example :
    Ends
      (some (3 ∷ 5 ∷ [], 6))
      watched
      (two ∷ empty ∷ [])
      (select_main true (pos 3 ∷ pos 5 ∷ []) watched (two ∷ empty ∷ []))
unfolding set_up open_all highest
select_main-Ends_example =
    select_main-Ends true (pos 3 ∷ pos 5 ∷ []) watched (two ∷ empty ∷ [])
      (two-IsValid, (empty-IsValid, tt)) refl

sets_outside : select_main true (pos 1024 ∷ []) watched (two ∷ []) ≡ outside
unfolding select_main set_up open_all highest
sets_outside = refl
