-- ===== src/Chardev.antt =====
-- exemples/04-driver-caracteres/example-IV-07.c and example-IV-08.c: readers that share a variable,
-- one step of one reader at a time. The steps that the two drivers share are here.
pub mod Ids
pub mod Program
pub mod Misc
pub mod Load
mod Race
mod Locked
mod Exclusion
mod Served
mod Collision
mod Tests
use mathlib.Core.Option.{some-injective}
use ild.Base.{
  ℕ, zero, suc, ◌+◌, ◌%◌, ◌^◌, ◌≤◌, ◌<◌, ◌≡◌, refl, sym, ◌⊎◌, inl, inr, List, [], ◌∷◌, ℤ, pos, neg,
  i64, is_neg, sub_u64, Bool, true, false, ltb, ◌==◌, not, if◌then◌else◌, Option, none, some,
  Bool-cases, arith,
}
use ild.Kernel.Errno.{enomem, efault}
use ild.Kernel.Copy.{Reply, reply}

-- What `strcpy` leaves in `k_buffer`: "." when the variable still holds the reader's pid, "#" if
-- not.
pub data Mark : Type 0 where
  dot : Mark
  sharp : Mark

-- Where a process is in its call of `example_read (length, left)`: `left` bytes will not be copied.
-- `locked` and `leaving` are for the driver that has a mutex.
pub data Phase : Type 0 where
  outside : Phase
  entering : ℕ → ℕ → Phase
  locked : ℕ → ℕ → Phase
  stored : ℕ → ℕ → Phase
  looping : ℕ → ℕ → ℕ → Phase
  chosen : ℕ → ℕ → Mark → Phase
  leaving : ℕ → ℕ → Mark → Phase
  returned : ℕ → ℕ → Reply → Phase

-- `phases` gives the phase of each pid, `owner` the pid that holds the mutex.
pub record State : Type 0 where
  pub phases : ℕ → Phase
  pub current_pid : ℕ
  pub owner : Option ℕ
  pub jiffies : ℕ

pub data Event : Type 0 where
  call : ℕ → ℕ → ℕ → Event
  run : ℕ → Event
  interrupt : ℕ → Event
  tick : Event

abbrev pub update : ℕ → Phase → (ℕ → Phase) → ℕ → Phase
update p x phases q = if q == p then x else phases q

abbrev pub move_to : ℕ → Phase → State → State
move_to p x s = record s { phases = update p x s.phases }

unfoldable pub deadline : ℕ → ℕ
deadline jiffies = (jiffies + 10) % 2 ^ 64

-- The kernel's macro, on the 64-bit counter: a signed comparison of the difference.
unfoldable pub time_before : ℕ → ℕ → Bool
time_before a b = is_neg (i64 (sub_u64 a b))

unfoldable pub mark : ℕ → ℕ → Mark
mark current_pid pid = if current_pid == pid then dot else sharp

abbrev text : Mark → List ℕ
text dot = b'.' ∷ 0 ∷ []
text sharp = b'#' ∷ 0 ∷ []

-- Two bytes are copied, and the result is 1.
unfoldable pub give : Mark → ℕ → ℕ → Reply
give m size left =
    if ltb size 2
    then reply (neg enomem) []
    else (if not (left == 0) then reply (neg efault) [] else reply (pos 1) (text m))

-- A process that is in no call enters one.
unfoldable pub start_call : ℕ → ℕ → ℕ → Phase → State → Option State
start_call p size left outside s = some (move_to p (entering size left) s)
start_call p size left (returned _ _ _) s = some (move_to p (entering size left) s)
start_call p size left _ s = none

unfoldable pub next_tick : State → State
next_tick s = record s { jiffies = (s.jiffies + 1) % 2 ^ 64 }

-- The loop ends ten ticks after the deadline was computed, no sooner, also where `jiffies` wraps.
pub time_before-deadline :
    (jiffies elapsed : ℕ)
    → jiffies < 2 ^ 64
    → elapsed < 2 ^ 63
    → time_before ((jiffies + elapsed) % 2 ^ 64) (deadline jiffies) ≡ ltb elapsed 10
unfolding time_before deadline
time_before-deadline jiffies elapsed h k = ground arith

-- The states that a driver's steps lead to, in any order that the processes run.
pub data Reach (step : Event → State → Option State) (s : State) : State → Type 0 where
  here : Reach step s s
  next : {t u : State} (e : Event) → Reach step s t → step e t ≡ some u → Reach step s u

-- The state after a sequence of steps, if each of them is possible.
unfoldable pub follow : (Event → State → Option State) → List Event → State → Option State
follow step [] s = some s
follow step (e ∷ es) s = elim (step e s) [ none ↦ none | some t ↦ follow step es t ]

follow_more :
    (o : Option State) (f : State → Option State) {u : State}
    → (elim o [ none ↦ none | some t ↦ f t ]) ≡ some u
    → (t : State) × (o ≡ some t) × (f t ≡ some u)
follow_more none f e = absurd (ground (arith, e))
follow_more (some t) f e = (t, refl, e)

-- A sequence of possible steps leads to a state that is reached.
pub follow-Reach :
    (step : Event → State → Option State) (es : List Event) {s t u : State}
    → Reach step s t
    → follow step es t ≡ some u
    → Reach step s u
unfolding follow
follow-Reach step [] {s} {t} {u} r e = rw (sym (some-injective t u e)) r
follow-Reach step (e ∷ es) {s} {t} r h =
    let (v, a, b) = follow_more (step e t) (follow step es) h in follow-Reach step es (next e r a) b
