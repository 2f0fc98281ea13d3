-- ===== src/Entry/Hardware.antt =====
-- The modules of exemples/05-acces-au-materiel that hold lines, interrupts or memory.
use ild.Base.{ℕ, pos, neg, Bool, Option, List, if◌then◌else◌, ◌≡◌, ◌∷◌, []}
use ild.Kernel.Errno.{enomem}
use ild.Kernel.Held.{Held}
use ild.Gpio.{Env, example_gpio_in, example_gpio_out}
use ild.Gpio.Balance.{settle, first_error}
use ild.Gpio.Input.{init_input, exit_input, init_input_settles}
use ild.Gpio.Toggle
use ild.Gpio.Line.{line_init, line_exit}
use ild.Gpio.Lines.{line_init_settles}
use ild.Ticks.PerOpen
use ild.Ticks.PerOpen.{allocated, example_open_settles}
use ild.Timer.Mapped

-- The entry points with one line, with two, and with two and a device, the opening of the device of
-- example-V-10.c and the entry point of example-V-11.c return the first error of the calls that
-- they make, and a refusal, or a success and what undoes it, leave exactly what was held before,
-- with no resource released twice.
pub hardware_settle :
    (env : Env) (kmalloc : Option (List ℕ)) (kzalloc : Bool) (h : Held)
    → ((init_input env h).0
        ≡ first_error (
            env.gpio_request example_gpio_in
            ∷ env.direction_input
            ∷ env.request_irq
            ∷ env.misc_register
            ∷ []))
      × (settle exit_input (init_input env h) ≡ h)
      × ((Toggle.example_init env h).0
          ≡ first_error (
              env.gpio_request example_gpio_in
              ∷ env.gpio_request example_gpio_out
              ∷ env.direction_input
              ∷ env.direction_output
              ∷ env.request_irq
              ∷ []))
      × (settle Toggle.example_exit (Toggle.example_init env h) ≡ h)
      × ((line_init env h).0
          ≡ first_error (
              env.gpio_request example_gpio_in
              ∷ env.gpio_request example_gpio_out
              ∷ env.direction_input
              ∷ env.direction_output
              ∷ env.misc_register
              ∷ []))
      × (settle line_exit (line_init env h) ≡ h)
      × ((PerOpen.example_open env kmalloc h).0.0
          ≡ first_error (
              allocated kmalloc
              ∷ env.gpio_request example_gpio_in
              ∷ env.direction_input
              ∷ env.request_irq
              ∷ []))
      × (settle PerOpen.example_release (PerOpen.example_open env kmalloc h).0 ≡ h)
      × ((Mapped.example_init kzalloc env.misc_register h).0
          ≡ first_error ((if kzalloc then pos 0 else neg enomem) ∷ env.misc_register ∷ []))
      × (settle Mapped.example_exit (Mapped.example_init kzalloc env.misc_register h) ≡ h)
hardware_settle env kmalloc kzalloc h =
    let (a, b) = init_input_settles env h in
    let (c, d) = Toggle.example_init_settles env h in
    let (e, f) = line_init_settles env h in
    let (i, j) = example_open_settles env kmalloc h in
    let (k, l) = Mapped.example_init_settles kzalloc env.misc_register h in
    (a, b, c, d, e, f, i, j, k, l)
