-- ===== src/Counter/Several.antt =====
-- solutions/tp-IV-04-several-counters.c: eight counters, each with its step and its device.
use ild.Base.{
  zero, suc, is_zero, replicate, ℕ, ◌+◌, List, [], ◌∷◌, ◌++◌, ℤ, pos, neg, Bool, Option, none, some,
  not, ltb, ◌==◌, if◌then◌else◌, take, get_or, set,
}
use ild.Kernel.Errno.{enomem, efault, einval, enotty}
use ild.Kernel.Copy.{from_user, Reply, reply, out_of_bounds}
use ild.Kernel.Held.{Held, acquire, release, memory, misc}
use ild.Text.{Answer, read_device}
use ild.Counter.{
  counter_text, add_int, c_string, Written, Command, counter_ioctl_magic, set_step_command,
}

abbrev pub nb_counters : ℕ
nb_counters = 8

-- Two arrays of `nb_counters` words.
pub record Counters : Type 0 where
  pub counter : List ℕ
  pub step : List ℕ

-- The search for the device's minor number among those that the kernel gave, from index `i` on. It
-- returns the index that goes into `private_data`, or -EINVAL.
unfoldable pub open_from : ℕ → List ℕ → ℕ → ℤ × Option ℕ
open_from i [] minor = (neg einval, none)
open_from i (m ∷ ms) minor =
    let rest = open_from (i + 1) ms minor in if m == minor then (pos 0, some i) else rest

unfoldable pub counter_open : List ℕ → ℕ → ℤ × Option ℕ
counter_open minors minor = open_from 0 minors minor

-- `idx` is the file's `private_data`.
unfoldable pub counter_read : ℕ → Counters → ℕ → ℕ → ℕ → Answer Counters
counter_read idx =
    read_device (λ s. counter_text (get_or s.counter idx 0))
      (λ s. record s {
        counter = set s.counter idx (add_int (get_or s.counter idx 0) (get_or s.step idx 0));
      })

unfoldable pub counter_write :
    (List ℕ → Option ℕ) → Bool → List ℕ → ℕ → ℕ → ℕ → Counters → Held → Written Counters
counter_write kstrtoint kmalloc ubuffer lg left idx s h =
    let h₁ = acquire (memory 0) h in
    let kbuffer = from_user ubuffer lg left ++ 0 ∷ [] in
    if not kmalloc
    then record { ret = neg enomem; state = s; held = h }
    else (if not (left == 0)
        then record { ret = neg efault; state = s; held = h₁ }
        else elim (kstrtoint (c_string kbuffer)) [
          | none ↦ record { ret = neg einval; state = s; held = release (memory 0) h₁ }
          | some value ↦ record {
            ret = pos lg;
            state = record s { counter = set s.counter idx value };
            held = release (memory 0) h₁;
          }
        ])

-- `sizeof(counter_step)` is the size of the whole array: `words` are the `nb_counters` words that
-- `copy_from_user` writes from `counter_step[idx]` on.
unfoldable pub counter_ioctl : Command → List ℕ → ℕ → ℕ → Counters → Reply × Counters
counter_ioctl cmd words left idx s =
    let s₁ = record s { step = take idx s.step ++ take nb_counters words } in
    if not (cmd.ioc_type == counter_ioctl_magic)
    then (reply (neg enotty) [], s)
    else (if not (cmd.ioc_nr == set_step_command)
        then (reply (neg enotty) [], s)
        else (if ltb nb_counters (idx + nb_counters)
            then (out_of_bounds, s)
            else (if not (left == 0) then (reply (neg efault) [], s₁) else (reply (pos 0) [], s₁))))

-- The registration of the devices from index `i` on, `n` of them, whose results are not looked at:
-- `misc_register i` is what it returns for the device of that index.
abbrev pub register_from : ℕ → ℕ → (ℕ → ℤ) → Held → Held
register_from zero i misc_register h = h
register_from (suc n) i misc_register h =
    register_from n (i + 1) misc_register
      (if is_zero (misc_register i) then acquire (misc i) h else h)

abbrev pub deregister_from : ℕ → ℕ → Held → Held
deregister_from zero i h = h
deregister_from (suc n) i h = deregister_from n (i + 1) (release (misc i) h)

unfoldable pub counter_init : (ℕ → ℤ) → Counters → Held → (ℤ × Held) × Counters
counter_init misc_register s h = (
  (pos 0, register_from nb_counters 0 misc_register h),
  record s { step = replicate nb_counters 1 },
)

unfoldable pub counter_exit : Held → Held
counter_exit h = deregister_from nb_counters 0 h
