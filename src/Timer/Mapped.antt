-- ===== src/Timer/Mapped.antt =====
-- exemples/05-acces-au-materiel/example-V-11.c: a page that a timer writes and that the caller
-- maps.
use ild.Base.{
  ℕ, ◌≡◌, refl, ap, ◌∙◌, drop, ltb, ℤ, pos, neg, is_zero, Bool, not, if◌then◌else◌, List, [], ◌∷◌,
  ◌++◌, length, append_assoc, arith,
}
use ild.Kernel.Errno.{einval, eagain, enomem}
use ild.Kernel.Copy.{overwrite}
use ild.Kernel.Format.{decimal, IsClean, append-IsClean, decimal-IsClean}
use ild.Kernel.Task.{c_string}
use ild.Kernel.Held.{Held, acquire, release, memory, misc}
use ild.Gpio.Balance.{settle, first_error}

-- "\r%s: %lu"
abbrev pub tick_text : List ℕ → ℕ → List ℕ
tick_text name jiffies = 13 ∷ (name ++ (b':' ∷ b' ' ∷ decimal jiffies))

-- `sprintf` writes the text and its NUL at the start of the page.
unfoldable pub example_timer_function : List ℕ → ℕ → List ℕ → List ℕ
example_timer_function name jiffies buffer = overwrite (tick_text name jiffies ++ 0 ∷ []) buffer

-- `size` is `vm_end - vm_start`, `remap` what `remap_pfn_range` returns.
unfoldable pub example_mmap : ℕ → ℕ → ℤ → ℤ
example_mmap page_size size remap =
    if ltb page_size size then neg einval else (if not (is_zero remap) then neg eagain else pos 0)

-- `kzalloc` tells whether the page is allocated; `timer` is not counted among what is held.
unfoldable pub example_init : Bool → ℤ → Held → ℤ × Held
example_init kzalloc misc_register h =
    let h₁ = acquire (memory 0) h in
    if not kzalloc
    then (neg enomem, h)
    else (if not (is_zero misc_register)
        then (misc_register, release (memory 0) h₁)
        else (pos 0, acquire (misc 0) h₁))

-- The page is freed before the device is removed.
unfoldable pub example_exit : Held → Held
example_exit h = release (misc 0) (release (memory 0) h)

c_string-append : (text rest : List ℕ) → IsClean text → c_string (text ++ (0 ∷ rest)) ≡ text
c_string-append [] rest h = refl
c_string-append (c ∷ cs) rest h = rw (h.0, c_string-append cs rest h.1) refl

-- What a process that mapped the page reads in it after a run of the timer, up to the NUL.
shows_tick :
    (name : List ℕ) (jiffies : ℕ) (buffer : List ℕ)
    → IsClean name
    → c_string (example_timer_function name jiffies buffer) ≡ tick_text name jiffies
unfolding example_timer_function
shows_tick name jiffies buffer h =
    let text = tick_text name jiffies in
    let rest = drop (length (text ++ 0 ∷ [])) buffer in
    let clean : IsClean text = (
      refl,
      append-IsClean name (b':' ∷ b' ' ∷ decimal jiffies) h (refl, (refl, decimal-IsClean jiffies)),
    ) in
    ap c_string (append_assoc text (0 ∷ []) rest) ∙ c_string-append text rest clean

pub example_init_settles :
    (kzalloc : Bool) (misc_register : ℤ) (h : Held)
    → ((example_init kzalloc misc_register h).0
        ≡ first_error ((if kzalloc then pos 0 else neg enomem) ∷ misc_register ∷ []))
      × (settle example_exit (example_init kzalloc misc_register h) ≡ h)
unfolding example_init example_exit
example_init_settles kzalloc misc_register h = ground arith
