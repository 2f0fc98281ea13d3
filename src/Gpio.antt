-- ===== src/Gpio.antt =====
-- The GPIO lines of exemples/05-acces-au-materiel/gpio-examples.h, and the results of the kernel's
-- calls that set them up.
pub mod Balance
pub mod Input
pub mod Toggle
pub mod Deferred
pub mod Line
pub mod Lines
mod Tests
use ild.Base.{ℕ, ℤ}

-- What the kernel's functions return: zero, or an error that is passed on.
pub record Env : Type 0 where
  pub gpio_request : ℕ → ℤ
  pub direction_input : ℤ
  pub direction_output : ℤ
  pub request_irq : ℤ
  pub misc_register : ℤ

-- The lines of the BeagleBone Black, the platform that the header selects.
abbrev pub example_gpio_in : ℕ
example_gpio_in = 66

abbrev pub example_gpio_out : ℕ
example_gpio_out = 56
