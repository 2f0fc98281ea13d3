-- ===== src/Gpio/Tests.antt =====
-- The GPIO modules at small inputs.
use ild.Base.{◌-◌, Option, none, some, ℕ, ◌≤◌, ◌≡◌, refl, pos, neg, false, [], ◌∷◌, List}
use ild.Kernel.Errno.{ebusy}
use ild.Kernel.Held.{Held}
use ild.Gpio.{Env}
use ild.Gpio.Input.{init_input}
use ild.Gpio.Toggle.{start, example_init, example_exit, interrupts}
use ild.Gpio.Line.{line_write, fdt_write}
use ild.Gpio.Deferred.{
  tasklet, Event, edge, dispatch, run, run-interrupts, tasklet_init, tasklet_exit, work_init,
  work_exit, thread_init, thread_exit,
}

abbrev nothing : Held
nothing = record { resources = []; faults = 0 }

abbrev all_fine : Env
all_fine = record {
  gpio_request = λ n. pos 0;
  direction_input = pos 0;
  direction_output = pos 0;
  request_irq = pos 0;
  misc_register = pos 0;
}

abbrev irq_taken : Env
irq_taken = record all_fine { request_irq = neg ebusy }

irq_taken_refuses :
    (init_input irq_taken nothing ≡ (neg ebusy, nothing))
    × (example_init irq_taken nothing ≡ (neg ebusy, nothing))
unfolding init_input example_init
irq_taken_refuses = (refl, refl)

deferred_alike :
    (tasklet_exit (tasklet_init all_fine nothing).1 ≡ nothing)
    × (work_exit (work_init all_fine nothing).1 ≡ nothing)
    × (thread_exit (thread_init all_fine nothing).1 ≡ nothing)
unfolding tasklet_init tasklet_exit work_init work_exit thread_init thread_exit example_init
    example_exit
deferred_alike = (refl, refl, refl)

-- Two edges before the first dispatch count once.
abbrev bounce : List Event
bounce = edge ∷ edge ∷ dispatch ∷ edge ∷ dispatch ∷ dispatch ∷ []

run-interrupts_example :
    ((run tasklet bounce (record { led = start; scheduled = false })).led ≡ interrupts 2 start)
    × ◌≤◌ 2 3
    × ((run tasklet bounce (record { led = start; scheduled = false })).led.level ≡ 0)
run-interrupts_example = run-interrupts tasklet bounce

-- A reader of one digit.
abbrev one_digit : List ℕ → Option ℕ
one_digit (x ∷ []) = some (x - 48)
one_digit _ = none

-- "2"
two_differs :
    (line_write one_digit (50 ∷ []) 1 0 1 ≡ (pos 1, 0))
    × (fdt_write one_digit (50 ∷ []) 1 0 1 ≡ (pos 1, 1))
unfolding line_write fdt_write
two_differs = (refl, refl)
