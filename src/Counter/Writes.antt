-- ===== src/Counter/Writes.antt =====
-- The write and ioctl system calls of the counters, on every branch.
use ild.Base.{
  ℕ, ◌+◌, ◌<◌, ◌≡◌, ◌⊎◌, ◌↔◌, inl, inr, refl, ap, ◌∙◌, is_zero, suc, Bool-cases, List, [], ◌∷◌,
  ◌++◌, ℤ, pos, neg, Bool, true, false, Option, none, some, not, ◌==◌, ◌&&◌, ◌||◌, if◌then◌else◌,
  length, get_or, arith,
}
use native.Mathlib.Nat.{add-zero}
use ild.Kernel.Errno.{enomem, efault, einval, enotty}
use ild.Kernel.Copy.{out_of_bounds, from_user}
use ild.Gpio.Balance.{first_error}
use ild.Kernel.Held.{Held, acquire, memory}
use ild.Counter.{c_string, Command, counter_ioctl_magic, set_step_command}
use ild.Counter.Single.{Counter, writable_write, stepped_write, stepped_ioctl}
use ild.Counter.Several
use ild.Counter.Several.{Counters, nb_counters}

abbrev is_some : Option ℕ → Bool
is_some none = false
is_some (some n) = true

abbrev or_else : Option ℕ → ℕ → ℕ
or_else none d = d
or_else (some n) d = n

-- The text that a write hands to `kstrtoint` when the copy succeeds.
abbrev pub written_text : List ℕ → ℕ → List ℕ
written_text ubuffer lg = c_string (from_user ubuffer lg 0 ++ 0 ∷ [])

-- The first of the three things that a write asks for and does not get.
abbrev pub refusal : (List ℕ → Option ℕ) → Bool → List ℕ → ℕ → ℕ → ℤ
refusal kstrtoint kmalloc ubuffer lg left = first_error (
    (if kmalloc then pos 0 else neg enomem)
    ∷ (if left == 0 then pos 0 else neg efault)
    ∷ (if is_some (kstrtoint (written_text ubuffer lg)) then pos 0 else neg einval)
    ∷ [])

-- A write that is refused returns the error and keeps the counter; another returns the length and
-- stores the number of the text.
pub record Stores (kstrtoint : List ℕ → Option ℕ) (kmalloc : Bool) (ubuffer : List ℕ)
    (lg left old : ℕ) (ret : ℤ) (new : ℕ) : Type 0 where
  pub result :
      let error = refusal kstrtoint kmalloc ubuffer lg left in
      ret ≡ (if is_zero error then pos lg else error)
  pub stored : new ≡ (
      if is_zero (refusal kstrtoint kmalloc ubuffer lg left)
      then or_else (kstrtoint (written_text ubuffer lg)) old
      else old)

module _ (kstrtoint : List ℕ → Option ℕ) (kmalloc : Bool) (ubuffer : List ℕ) (lg left : ℕ)
    (h : Held) where
  writable_write-Stores :
      (counter : ℕ)
      → let w = writable_write kstrtoint kmalloc ubuffer lg left counter h in
        Stores kstrtoint kmalloc ubuffer lg left counter w.ret w.state × (w.held ≡ h)
  unfolding writable_write
  writable_write-Stores counter =
      (record { result = ground arith; stored = ground arith }, ground arith)

  stepped_write-Stores :
      (s : Counter)
      → let w = stepped_write kstrtoint kmalloc ubuffer lg left s h in
        Stores kstrtoint kmalloc ubuffer lg left s.counter w.ret w.state.counter
        × (w.state.step ≡ s.step)
        × (w.held ≡ (if kmalloc && not (left == 0) then acquire (memory 0) h else h))
  unfolding stepped_write
  stepped_write-Stores s =
      (record { result = ground arith; stored = ground arith }, ground arith, ground arith)

  -- A write returns -ENOMEM if it gets no buffer, or else -EFAULT if the copy from the caller
  -- fails, or else -EINVAL if `kstrtoint` refuses the caller's text, and keeps the counter; with
  -- none of these it returns the length and stores the number of the text. It keeps the step. That
  -- of tp-IV-02-counter-write.c always frees the kernel's buffer; that of tp-IV-03-counter-ioctl.c
  -- leaves it allocated exactly when the copy from the caller fails.
  pub writes-Stores :
      (counter : ℕ) (s : Counter)
      → let w = writable_write kstrtoint kmalloc ubuffer lg left counter h in
        let v = stepped_write kstrtoint kmalloc ubuffer lg left s h in
        Stores kstrtoint kmalloc ubuffer lg left counter w.ret w.state
        × (w.held ≡ h)
        × Stores kstrtoint kmalloc ubuffer lg left s.counter v.ret v.state.counter
        × (v.state.step ≡ s.step)
        × (v.held ≡ (if kmalloc && not (left == 0) then acquire (memory 0) h else h))
  writes-Stores counter s =
      let (a, b) = writable_write-Stores counter in
      let (c, d, e) = stepped_write-Stores s in (a, b, c, d, e)

-- The three branches of the ioctl of tp-IV-03-counter-ioctl.c.
pub stepped_ioctl_lem :
    (cmd : Command) (word left : ℕ) (s : Counter)
    → stepped_ioctl cmd word left s ≡ (
        if cmd.ioc_type == counter_ioctl_magic && cmd.ioc_nr == set_step_command
        then ((if left == 0 then pos 0 else neg efault), record s { step = word })
        else (neg enotty, s))
unfolding stepped_ioctl
stepped_ioctl_lem cmd word left s = ground arith

-- The ioctl of tp-IV-04-several-counters.c that sets a step writes past the end of the array for
-- every counter but the first.
pub counter_ioctl_overrun :
    (cmd : Command) (words : List ℕ) (left idx : ℕ) (s : Counters)
    → cmd.ioc_type ≡ counter_ioctl_magic
    → cmd.ioc_nr ≡ set_step_command
    → ((Several.counter_ioctl cmd words left idx s).0 ≡ out_of_bounds) ↔ (0 < idx)
unfolding Several.counter_ioctl
counter_ioctl_overrun cmd words left idx s t n = (λ e. ground arith, λ p. ground arith)

abbrev pub has : List ℕ → ℕ → Bool
has [] minor = false
has (m ∷ ms) minor = m == minor || has ms minor

-- What a search from index `i` on may find.
abbrev pub Finds : ℕ → List ℕ → ℕ → ℤ × Option ℕ → Type 0
Finds i minors minor r =
    ((k : ℕ) × (r ≡ (pos 0, some (i + k))) × (k < length minors) × (get_or minors k 0 ≡ minor))
    ⊎ ((r ≡ (neg einval, none)) × (has minors minor ≡ false))

open_from-Finds :
    (i : ℕ) (minors : List ℕ) (minor : ℕ) → Finds i minors minor (Several.open_from i minors minor)
unfolding Several.open_from
open_from-Finds i [] minor = inr (refl, refl)
open_from-Finds i (m ∷ ms) minor = elim (Bool-cases (m == minor)) [
  | inl e ↦ inl (0, rw (e, add-zero), omega arith, ground arith)
  | inr e ↦ rw e (elim (open_from-Finds (i + 1) ms minor) [
    | inl (k, found, bound, same) ↦
        inl (suc k, found ∙ ap (λ n. (pos 0, some n)) (omega arith), omega arith, same)
    | inr (refused, others) ↦ inr (refused, others)
  ])
]

-- The search from the first index on.
pub counter_open-Finds :
    (minors : List ℕ) (minor : ℕ) → Finds 0 minors minor (Several.counter_open minors minor)
unfolding Several.counter_open
counter_open-Finds minors minor = open_from-Finds 0 minors minor
