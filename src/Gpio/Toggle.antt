-- ===== src/Gpio/Toggle.antt =====
-- exemples/05-acces-au-materiel/example-V-03.c: each interrupt on the input line toggles the output
-- line. The set-up of the two lines is also that of example-V-04.c, example-V-05.c and
-- example-V-06.c.
use ild.Base.{ℕ, zero, suc, ◌-◌, ◌%◌, ℤ, pos, is_zero, not, if◌then◌else◌, ◌≡◌, [], ◌∷◌, arith}
use ild.Kernel.Held.{Held, acquire, release, gpio, irq}
use ild.Gpio.{Env, example_gpio_in, example_gpio_out}
use ild.Gpio.Balance.{settle, first_error}

-- `value` is the handler's static variable, 0 or 1, and `level` the output line.
pub record Led : Type 0 where
  pub value : ℕ
  pub level : ℕ

abbrev pub start : Led
start = record { value = 1; level = 0 }

unfoldable pub example_handler : Led → Led
example_handler s = record { level = s.value; value = 1 - s.value }

unfoldable pub example_init : Env → Held → ℤ × Held
example_init env h =
    let h₁ = acquire (gpio example_gpio_in) h in
    let h₂ = acquire (gpio example_gpio_out) h₁ in
    let undo = release (gpio example_gpio_in) (release (gpio example_gpio_out) h₂) in
    if not (is_zero (env.gpio_request example_gpio_in))
    then (env.gpio_request example_gpio_in, h)
    else (if not (is_zero (env.gpio_request example_gpio_out))
        then (env.gpio_request example_gpio_out, release (gpio example_gpio_in) h₁)
        else (if not (is_zero env.direction_input)
            then (env.direction_input, undo)
            else (if not (is_zero env.direction_output)
                then (env.direction_output, undo)
                else (if not (is_zero env.request_irq)
                    then (env.request_irq, undo)
                    else (pos 0, acquire irq h₂)))))

unfoldable pub example_exit : Held → Held
example_exit h = release (gpio example_gpio_in) (release (gpio example_gpio_out) (release irq h))

-- All the branches at once.
pub example_init_settles :
    (env : Env) (h : Held)
    → ((example_init env h).0
        ≡ first_error (
            env.gpio_request example_gpio_in
            ∷ env.gpio_request example_gpio_out
            ∷ env.direction_input
            ∷ env.direction_output
            ∷ env.request_irq
            ∷ []))
      × (settle example_exit (example_init env h) ≡ h)
unfolding example_init example_exit
example_init_settles env h = ground arith

-- `n` interrupts.
unfoldable pub interrupts : ℕ → Led → Led
interrupts zero s = s
interrupts (suc n) s = example_handler (interrupts n s)

interrupts-parity :
    (n : ℕ) → ((interrupts n start).level ≡ n % 2) × ((interrupts n start).value ≡ 1 - n % 2)
unfolding interrupts example_handler
interrupts-parity zero = omega arith
interrupts-parity (suc n) = omega (arith, interrupts-parity n)

-- After any number of interrupts the output line is high exactly if the number is odd.
pub level-interrupts : (n : ℕ) → (interrupts n start).level ≡ n % 2
level-interrupts n = (interrupts-parity n).0
