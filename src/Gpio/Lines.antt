-- ===== src/Gpio/Lines.antt =====
-- What example-V-01.c and example-V-01-with-fdt.c share, and where they differ.
use ild.Base.{
  ℕ, ◌+◌, ◌%◌, ◌≡◌, refl, is_neg, false, ◌==◌, ◌||◌, if◌then◌else◌, List, [], ◌∷◌, ◌++◌, Option,
  some, arith,
}
use ild.Kernel.Copy.{from_user}
use ild.Kernel.Task.{c_string}
use ild.Kernel.Held.{Held, mem, gpio}
use ild.Gpio.{Env, example_gpio_in, example_gpio_out}
use ild.Gpio.Balance.{settle, first_error}
use ild.Gpio.Line.{
  line_read, line_write, line_init, line_exit, fdt_read, fdt_write, fdt_probe, fdt_remove, Tree,
  settle_managed,
}

-- The two devices read alike and return the same result of a write; a write refused keeps the level
-- in both; and a write of a number leaves them with the same level exactly when the number is 0 or
-- odd.
fdt_write-line_write :
    (kstrtoint : List ℕ → Option ℕ) (buffer : List ℕ) (value room length left level val : ℕ)
    → kstrtoint (c_string (from_user buffer length left ++ 0 ∷ [])) ≡ some val
    → let (r, plain) = line_write kstrtoint buffer length left level in
      let (s, tree) = fdt_write kstrtoint buffer length left level in
      (line_read value room left ≡ fdt_read value room left)
      × (r ≡ s)
      × ((plain == tree) ≡ (is_neg r || (val == 0 || val % 2 == 1)))
      × ((if is_neg r then plain else level) ≡ level)
      × ((if is_neg s then tree else level) ≡ level)
unfolding line_read fdt_read line_write fdt_write
fdt_write-line_write kstrtoint buffer value room length left level val e =
    (refl, ground arith, ground arith, ground arith, ground arith)

pub line_init_settles :
    (env : Env) (h : Held)
    → ((line_init env h).0
        ≡ first_error (
            env.gpio_request example_gpio_in
            ∷ env.gpio_request example_gpio_out
            ∷ env.direction_input
            ∷ env.direction_output
            ∷ env.misc_register
            ∷ []))
      × (settle line_exit (line_init env h) ≡ h)
unfolding line_init line_exit
line_init_settles env h = ground arith

-- The lines that example-V-01-with-fdt.c found are given back twice, by the code and by the kernel,
-- when the probe fails later and when the device is removed.
pub fdt_probe-faults :
    (tree : Tree) (h : Held)
    → mem (gpio 0) h.resources ≡ false
    → mem (gpio 1) h.resources ≡ false
    → settle_managed (fdt_probe tree h) ≡ record h {
      faults = h.faults + (if tree.has_in then (if tree.has_out then 2 else 1) else 0);
    }
unfolding fdt_probe fdt_remove
fdt_probe-faults tree h e f = ground arith
