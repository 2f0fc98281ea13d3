-- ===== src/Counter/Single.antt =====
-- solutions/tp-IV-01-counter-read.c, tp-IV-02-counter-write.c and tp-IV-03-counter-ioctl.c.
use ild.Base.{
  ℕ, List, [], ◌∷◌, ◌++◌, ℤ, pos, neg, Bool, Option, none, some, not, ◌==◌, if◌then◌else◌,
}
use ild.Kernel.Errno.{enomem, efault, einval, enotty}
use ild.Kernel.Copy.{from_user}
use ild.Kernel.Held.{Held, acquire, release, memory}
use ild.Text.{Answer, read_device}
use ild.Counter.{
  counter_text, add_int, c_string, Written, Command, counter_ioctl_magic, set_step_command,
}

-- The counter of tp-IV-01-counter-read.c, and that of tp-IV-02-counter-write.c.
unfoldable pub plain_read : ℕ → ℕ → ℕ → ℕ → Answer ℕ
plain_read = read_device counter_text (λ c. add_int c 1)

unfoldable pub writable_read : ℕ → ℕ → ℕ → ℕ → Answer ℕ
writable_read = read_device counter_text (λ c. add_int c 1)

-- `kstrtoint` stores the number of the text, or fails and stores nothing. `kmalloc` tells whether
-- the allocation succeeds, and `left` how many bytes of the caller's cannot be copied.
unfoldable pub writable_write : (List ℕ → Option ℕ) → Bool → List ℕ → ℕ → ℕ → ℕ → Held → Written ℕ
writable_write kstrtoint kmalloc ubuffer lg left counter h =
    let h₁ = acquire (memory 0) h in
    let kbuffer = from_user ubuffer lg left ++ 0 ∷ [] in
    if not kmalloc
    then record { ret = neg enomem; state = counter; held = h }
    else (if not (left == 0)
        then record { ret = neg efault; state = counter; held = release (memory 0) h₁ }
        else elim (kstrtoint (c_string kbuffer)) [
          | none ↦ record { ret = neg einval; state = counter; held = release (memory 0) h₁ }
          | some value ↦ record { ret = pos lg; state = value; held = release (memory 0) h₁ }
        ])

pub record Counter : Type 0 where
  pub counter : ℕ
  pub step : ℕ

unfoldable pub stepped_read : Counter → ℕ → ℕ → ℕ → Answer Counter
stepped_read =
    read_device (λ s. counter_text s.counter) (λ s. record s { counter = add_int s.counter s.step })

-- The buffer is not freed when the copy fails.
unfoldable pub stepped_write :
    (List ℕ → Option ℕ) → Bool → List ℕ → ℕ → ℕ → Counter → Held → Written Counter
stepped_write kstrtoint kmalloc ubuffer lg left s h =
    let h₁ = acquire (memory 0) h in
    let kbuffer = from_user ubuffer lg left ++ 0 ∷ [] in
    if not kmalloc
    then record { ret = neg enomem; state = s; held = h }
    else (if not (left == 0)
        then record { ret = neg efault; state = s; held = h₁ }
        else elim (kstrtoint (c_string kbuffer)) [
          | none ↦ record { ret = neg einval; state = s; held = release (memory 0) h₁ }
          | some value ↦ record {
            ret = pos lg;
            state = record s { counter = value };
            held = release (memory 0) h₁;
          }
        ])

-- `word` is what `copy_from_user` writes over the step, and `left` the bytes of it that it could
-- not read, which it writes as zeros.
unfoldable pub stepped_ioctl : Command → ℕ → ℕ → Counter → ℤ × Counter
stepped_ioctl cmd word left s =
    let s₁ = record s { step = word } in
    if not (cmd.ioc_type == counter_ioctl_magic)
    then (neg enotty, s)
    else (if not (cmd.ioc_nr == set_step_command)
        then (neg enotty, s)
        else (if not (left == 0) then (neg efault, s₁) else (pos 0, s₁)))
