-- ===== src/Chardev/Program.antt =====
-- exemples/04-driver-caracteres/ioctl-example-IV-06.c, the program that sets and shows the flag of
-- example-IV-06.c.
use ild.Base.{
  ℕ, ◌≤◌, ◌<◌, ◌≡◌, refl, sym, neg, ap, ◌∙◌, [], ltb, if◌then◌else◌, Option, none, some, Bool, true,
  false, not, is_zero, arith,
}
use ild.Kernel.Errno.{enotty}
use ild.Kernel.Buffer.{SimpleRead, IsSimpleRead}
use ild.Kernel.Task.{Task}
use ild.Text.Cat.{cat}
use ild.Counter.{Command}
use ild.Chardev.Ids.{
  example_ioctl, example_get_ppid_flag, example_set_ppid_flag, flag_read, flag_text, is_known,
  other_refused, cat-flag,
}

-- Whether the program succeeds, the number that it prints, if any, and the flag of the device after
-- it.
pub record Exit : Type 0 where
  pub success : Bool
  pub printed : Option ℕ
  pub flag : ℕ

-- The second argument, where there is one and it is a number.
abbrev pub wanted : ℕ → Option ℕ → Option ℕ
wanted argc scanned = if ltb 2 argc then scanned else none

-- The first ioctl. The program goes on when it fails. `left` are the bytes that its copy leaves
-- out.
unfoldable pub set_flag : Option ℕ → ℕ → ℕ → ℕ
set_flag none left flag = flag
set_flag (some ppid_flag) left flag = (example_ioctl example_set_ppid_flag ppid_flag left flag).flag

-- The second ioctl, and the printing of what it gave.
unfoldable pub show_flag : ℕ → ℕ → Exit
show_flag left flag =
    let get = example_ioctl example_get_ppid_flag 0 left flag in
    if not (is_zero get.ret)
    then record { success = false; printed = none; flag = get.flag }
    else record { success = true; printed = get.given; flag = get.flag }

-- `opens` tells whether the file can be opened, and `scanned` is what sscanf reads in the second
-- argument. The copies of the two ioctls leave out `set_left` and `get_left` bytes.
unfoldable pub ioctl_main : ℕ → Bool → Option ℕ → ℕ → ℕ → ℕ → Exit
ioctl_main argc opens scanned set_left get_left flag =
    let failure : Exit = record { success = false; printed = none; flag = flag } in
    if ltb argc 2
    then failure
    else (if not opens
        then failure
        else show_flag get_left (set_flag (wanted argc scanned) set_left flag))

abbrev pub or_else : Option ℕ → ℕ → ℕ
or_else none flag = flag
or_else (some n) flag = n

set_flag-whole : (n : Option ℕ) (flag : ℕ) → set_flag n 0 flag ≡ or_else n flag
unfolding set_flag example_ioctl
set_flag-whole none flag = refl
set_flag-whole (some n) flag = refl

abbrev shown : ℕ → Exit
shown flag = record { success = true; printed = some flag; flag = flag }

show_flag-whole : (flag : ℕ) → show_flag 0 flag ≡ shown flag
unfolding show_flag example_ioctl
show_flag-whole flag = refl

main-shown :
    (argc : ℕ) (scanned : Option ℕ) (flag : ℕ)
    → 2 ≤ argc
    → ioctl_main argc true scanned 0 0 flag ≡ shown (or_else (wanted argc scanned) flag)
unfolding ioctl_main
main-shown argc scanned flag h =
    let enough : ltb argc 2 ≡ false = ground arith in
    rw enough (
      ap (show_flag 0) (set_flag-whole (wanted argc scanned) flag)
      ∙ show_flag-whole (or_else (wanted argc scanned) flag))

-- Run with a file that can be opened, while the copies of its ioctls succeed, the program of
-- ioctl-example-IV-06.c prints the number that it is given, or the flag of the device if it is
-- given none or what is given is not a number. That number is then the flag: a later run without a
-- number prints it and keeps it, an ioctl of another type or number is refused and keeps it, and
-- the text read to its end is the one for it, with the parent's pid unless it is 0. A run without a
-- file, or with one that cannot be opened, fails, prints no number and keeps the flag.
pub ioctl_main-cat :
    (argc : ℕ) (scanned : Option ℕ) (flag : ℕ) (other : Command) (word left : ℕ) (opens : Bool)
    (read : SimpleRead) (task : Task) (max : ℕ)
    → 2 ≤ argc
    → is_known other ≡ false
    → IsSimpleRead read
    → 0 < max
    → let n = or_else (wanted argc scanned) flag in
      let after = ioctl_main argc true scanned 0 0 flag in
      (after ≡ record { success = true; printed = some n; flag = n })
      × (ioctl_main 2 true scanned 0 0 after.flag ≡ after)
      × (example_ioctl other word left after.flag
          ≡ record { ret = neg enotty; given = none; flag = n })
      × (cat (flag_read read task) 128 max after.flag 0 [] ≡ some (flag_text task n, n))
      × (ioctl_main 1 opens scanned 0 0 flag
          ≡ record { success = false; printed = none; flag = flag })
      × (ioctl_main argc false scanned 0 0 flag
          ≡ record { success = false; printed = none; flag = flag })
unfolding ioctl_main
ioctl_main-cat argc scanned flag other word left opens read task max two o k m =
    let n = or_else (wanted argc scanned) flag in
    let p = main-shown argc scanned flag two in
    let q : (ioctl_main argc true scanned 0 0 flag).flag ≡ n = ap (λ (e : Exit). e.flag) p in
    let enough : ltb argc 2 ≡ false = ground arith in
    (
      p,
      ap (ioctl_main 2 true scanned 0 0) q ∙ main-shown 2 scanned n (omega arith) ∙ sym p,
      ap (example_ioctl other word left) q ∙ other_refused other word left n o,
      ap (λ f. cat (flag_read read task) 128 max f 0 []) q ∙ cat-flag read task n max k m,
      refl,
      rw enough refl,
    )
