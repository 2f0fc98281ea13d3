-- ===== src/Gpio/Line.antt =====
-- exemples/05-acces-au-materiel/example-V-01.c and example-V-01-with-fdt.c: a device that reads one
-- line and writes another, found by their numbers or in the device tree.
use ild.Base.{
  ℕ, ◌%◌, ℤ, pos, neg, is_zero, Bool, not, ltb, ◌==◌, if◌then◌else◌, List, [], ◌∷◌, ◌++◌, Option,
  none, some, take,
}
use ild.Kernel.Errno.{enomem, efault, einval, ebusy}
use ild.Kernel.Copy.{Reply, reply, from_user}
use ild.Kernel.Format.{show_d, newline}
use ild.Kernel.Task.{c_string}
use ild.Kernel.Held.{Held, acquire, release, gpio, misc}
use ild.Gpio.{Env, example_gpio_in, example_gpio_out}

-- `value` is the pattern that `gpio_get_value` returns. Two bytes of its text are copied.
unfoldable pub line_read : ℕ → ℕ → ℕ → Reply
line_read value length left =
    if ltb length 2
    then reply (pos 0) []
    else (if not (left == 0)
        then reply (neg efault) []
        else reply (pos 2) (take 2 (show_d value ++ newline)))

unfoldable pub fdt_read : ℕ → ℕ → ℕ → Reply
fdt_read value length left =
    if ltb length 2
    then reply (pos 0) []
    else (if not (left == 0)
        then reply (neg efault) []
        else reply (pos 2) (take 2 (show_d value ++ newline)))

-- A line is high when it is set to anything but 0.
abbrev pub level_of : ℕ → ℕ
level_of value = if value == 0 then 0 else 1

-- The result, and the level of the output. `kstrtoint` gives the pattern of an `int`.
unfoldable pub line_write : (List ℕ → Option ℕ) → List ℕ → ℕ → ℕ → ℕ → ℤ × ℕ
line_write kstrtoint buffer length left level =
    if ltb 79 length
    then (neg enomem, level)
    else (if not (left == 0)
        then (neg efault, level)
        else elim (kstrtoint (c_string (from_user buffer length left ++ 0 ∷ []))) [
          | none ↦ (neg einval, level)
          | some val ↦ (pos length, level_of (val % 2))
        ])

unfoldable pub fdt_write : (List ℕ → Option ℕ) → List ℕ → ℕ → ℕ → ℕ → ℤ × ℕ
fdt_write kstrtoint buffer length left level =
    if ltb 79 length
    then (neg enomem, level)
    else (if not (left == 0)
        then (neg efault, level)
        else elim (kstrtoint (c_string (from_user buffer length left ++ 0 ∷ []))) [
          | none ↦ (neg einval, level)
          | some val ↦ (pos length, level_of val)
        ])

unfoldable pub line_init : Env → Held → ℤ × Held
line_init env h =
    let h₁ = acquire (gpio example_gpio_in) h in
    let h₂ = acquire (gpio example_gpio_out) h₁ in
    let free = λ (k : Held). release (gpio example_gpio_in) (release (gpio example_gpio_out) k) in
    if not (is_zero (env.gpio_request example_gpio_in))
    then (env.gpio_request example_gpio_in, h)
    else (if not (is_zero (env.gpio_request example_gpio_out))
        then (env.gpio_request example_gpio_out, release (gpio example_gpio_in) h₁)
        else (if not (is_zero env.direction_input)
            then (env.direction_input, free h₂)
            else (if not (is_zero env.direction_output)
                then (env.direction_output, free h₂)
                else (if not (is_zero env.misc_register)
                    then (env.misc_register, free h₂)
                    else (pos 0, acquire (misc 0) h₂)))))

unfoldable pub line_exit : Held → Held
line_exit h = release (gpio example_gpio_in) (release (gpio example_gpio_out) (release (misc 0) h))

-- What the kernel's device tree and `misc_register` answer the probe.
pub record Tree : Type 0 where
  pub has_in : Bool
  pub has_out : Bool
  pub misc_register : ℤ

-- A line of `devm_gpiod_get` belongs to the device too: the last component is what the kernel gives
-- back by itself once the probe has failed or the device is removed.
unfoldable pub fdt_probe : Tree → Held → ℤ × Held × List ℕ
fdt_probe tree h =
    let h₁ = acquire (gpio 0) h in
    let h₂ = acquire (gpio 1) h₁ in
    if not tree.has_in
    then (neg ebusy, h, [])
    else (if not tree.has_out
        then (neg ebusy, release (gpio 0) h₁, 0 ∷ [])
        else (if not (is_zero tree.misc_register)
            then (tree.misc_register, release (gpio 0) (release (gpio 1) h₂), 1 ∷ 0 ∷ [])
            else (pos 0, acquire (misc 0) h₂, 1 ∷ 0 ∷ [])))

unfoldable pub fdt_remove : Held → Held
fdt_remove h = release (gpio 0) (release (gpio 1) (release (misc 0) h))

abbrev pub managed : List ℕ → Held → Held
managed [] h = h
managed (n ∷ ns) h = managed ns (release (gpio n) h)

abbrev pub settle_managed : ℤ × Held × List ℕ → Held
settle_managed (err, h, ns) = managed ns (if is_zero err then fdt_remove h else h)
