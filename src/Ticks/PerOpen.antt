-- ===== src/Ticks/PerOpen.antt =====
-- exemples/05-acces-au-materiel/example-V-10.c: the array belongs to one opening of the device.
use ild.Base.{
  ℕ, ℤ, pos, neg, Bool, false, List, [], ◌∷◌, Option, none, some, is_zero, not, if◌then◌else◌, ◌≡◌,
  arith,
}
use ild.Kernel.Errno.{enomem}
use ild.Kernel.Held.{Held, acquire, release, gpio, irq, memory}
use ild.Gpio.{Env, example_gpio_in}
use ild.Gpio.Balance.{settle, first_error}
use ild.Ticks.{
  Ticks, spin_lock, spin_unlock, wake_up, push_tick, take_value, Wake, Outcome, read_loop,
}

unfoldable pub example_handler : ℕ → Ticks → Ticks
example_handler jiffies data_ = wake_up (spin_unlock (push_tick jiffies (spin_lock data_)))

-- `data_` is the array that `kmalloc` returns, with what it happens to hold.
unfoldable pub example_open : Env → Option (List ℕ) → Held → (ℤ × Held) × Option Ticks
example_open env none h = ((neg enomem, h), none)
example_open env (some data_) h =
    let fresh = some (record { array = data_; array_end = 0; locked = false; wakeups = 0 }) in
    let h₁ = acquire (memory 0) h in
    let h₂ = acquire (gpio example_gpio_in) h₁ in
    let free_data = λ (k : Held). release (memory 0) k in
    let free_gpio = λ (k : Held). free_data (release (gpio example_gpio_in) k) in
    if not (is_zero (env.gpio_request example_gpio_in))
    then ((env.gpio_request example_gpio_in, free_data h₁), fresh)
    else (if not (is_zero env.direction_input)
        then ((env.direction_input, free_gpio h₂), fresh)
        else (if not (is_zero env.request_irq)
            then ((env.request_irq, free_gpio h₂), fresh)
            else ((pos 0, acquire irq h₂), fresh)))

unfoldable pub example_release : Held → Held
example_release h = release (memory 0) (release (gpio example_gpio_in) (release irq h))

unfoldable pub example_read : Bool → List Wake → ℕ → ℕ → Ticks → Outcome
example_read nonblock wakes size left data_ =
    read_loop (take_value size left) nonblock wakes (spin_lock data_)

abbrev pub allocated : Option (List ℕ) → ℤ
allocated none = neg enomem
allocated (some _) = pos 0

-- An opening returns the first error of the calls that it makes, -ENOMEM for the allocation first,
-- and one that is refused, or one that is closed again, leaves what was held before.
pub example_open_settles :
    (env : Env) (kmalloc : Option (List ℕ)) (h : Held)
    → ((example_open env kmalloc h).0.0
        ≡ first_error (
            allocated kmalloc
            ∷ env.gpio_request example_gpio_in
            ∷ env.direction_input
            ∷ env.request_irq
            ∷ []))
      × (settle example_release (example_open env kmalloc h).0 ≡ h)
unfolding example_open example_release
example_open_settles env kmalloc h = ground arith
