-- ===== src/Gpio/Input.antt =====
-- The set-up of a module with an input line, its interrupt and a misc device, as it stands in
-- example-V-07.c, example-V-08.c, example-V-09.c and example-select.c of
-- exemples/05-acces-au-materiel.
use ild.Base.{ℤ, pos, is_zero, not, if◌then◌else◌, ◌≡◌, [], ◌∷◌, arith}
use ild.Kernel.Held.{Held, acquire, release, gpio, irq, misc}
use ild.Gpio.{Env, example_gpio_in}
use ild.Gpio.Balance.{settle, first_error}

unfoldable pub init_input : Env → Held → ℤ × Held
init_input env h =
    let request = env.gpio_request example_gpio_in in
    let h₁ = acquire (gpio example_gpio_in) h in
    let h₂ = acquire irq h₁ in
    if not (is_zero request)
    then (request, h)
    else (if not (is_zero env.direction_input)
        then (env.direction_input, release (gpio example_gpio_in) h₁)
        else (if not (is_zero env.request_irq)
            then (env.request_irq, release (gpio example_gpio_in) h₁)
            else (if not (is_zero env.misc_register)
                then (env.misc_register, release (gpio example_gpio_in) (release irq h₂))
                else (pos 0, acquire (misc 0) h₂))))

unfoldable pub exit_input : Held → Held
exit_input h = release (gpio example_gpio_in) (release irq (release (misc 0) h))

-- All the branches at once.
pub init_input_settles :
    (env : Env) (h : Held)
    → ((init_input env h).0
        ≡ first_error (
            env.gpio_request example_gpio_in
            ∷ env.direction_input
            ∷ env.request_irq
            ∷ env.misc_register
            ∷ []))
      × (settle exit_input (init_input env h) ≡ h)
unfolding init_input exit_input
init_input_settles env h = ground arith
