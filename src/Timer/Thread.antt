-- ===== src/Timer/Thread.antt =====
-- exemples/05-acces-au-materiel/example-V-02.c: a kernel thread and its module, one step at a time.
use ild.Base.{
  Bool-cases, inl, inr, ◌⊎◌, ℕ, suc, ◌+◌, ◌≤◌, ◌≡◌, refl, ◌&&◌, not, if◌then◌else◌, Bool, true,
  false, Option, none, some, ℤ, pos, neg, List, [], ◌∷◌, length, arith,
}
use ild.Kernel.Errno.{enomem}
use ild.Timer.{Timer, Reach, timer_step, hrtimer_step, example_init}
use ild.Timer.Stop.{IsQuiet, left_set, removals-IsQuiet}

-- Whether the thread exists, whether it is in the body of its loop, whether it was told to stop,
-- whether the module is there, and the messages that the thread has printed.
pub record Thread : Type 0 where
  pub alive : Bool
  pub in_body : Bool
  pub should_stop : Bool
  pub loaded : Bool
  pub printed : ℕ

-- A step of the thread; `kthread_stop` called, once; `kthread_stop` returning; none else touches
-- the thread.
pub data Event : Type 0 where
  turn : Event
  stop : Event
  stopped : Event

-- The test of the loop is a step, after which the thread goes into the body or ends, and the body
-- is another: a stop may come between the two.
unfoldable pub example_thread_function : Thread → Thread
example_thread_function t =
    if t.in_body
    then record t { printed = t.printed + 1; in_body = false }
    else (if not t.should_stop then record t { in_body = true } else record t { alive = false })

-- `kthread_run` tells whether the thread is made.
unfoldable pub thread_init : Bool → ℤ × Thread
thread_init kthread_run =
    let t : Thread = record {
      alive = kthread_run;
      in_body = false;
      should_stop = false;
      loaded = kthread_run;
      printed = 0;
    } in
    ((if not kthread_run then neg enomem else pos 0), t)

-- `kthread_stop` asks the thread to stop, and returns once it has ended.
unfoldable pub exit_begins : Thread → Option Thread
exit_begins t =
    if t.loaded && not t.should_stop then some (record t { should_stop = true }) else none

unfoldable pub exit_ends : Thread → Option Thread
exit_ends t =
    if t.loaded && (t.should_stop && not t.alive) then some (record t { loaded = false }) else none

unfoldable pub thread_step : Event → Thread → Option Thread
thread_step turn t = if t.alive then some (example_thread_function t) else none
thread_step stop t = exit_begins t
thread_step stopped t = exit_ends t

-- A sequence of events leads from one state to another.
pub data Runs (t : Thread) : List Event → Thread → Type 0 where
  here : Runs t [] t
  next :
      {u v : Thread} {es : List Event} (e : Event)
      → Runs t es u
      → thread_step e u ≡ some v
      → Runs t (e ∷ es) v

-- The thread is there no longer than its module, ends only when it is told to, and is not in the
-- body once it has ended.
abbrev pub IsHeld : Thread → Type 0
IsHeld t =
    ((t.alive && not t.loaded) ≡ false)
    × ((t.loaded && (not t.alive && not t.should_stop)) ≡ false)
    × ((t.in_body && not t.alive) ≡ false)

thread_step-IsHeld : (e : Event) (t u : Thread) → IsHeld t → thread_step e t ≡ some u → IsHeld u
unfolding thread_step example_thread_function exit_begins exit_ends
thread_step-IsHeld turn t u h e = ground arith
thread_step-IsHeld stop t u h e = ground arith
thread_step-IsHeld stopped t u h e = ground arith

Runs-IsHeld : {t u : Thread} {es : List Event} → IsHeld t → Runs t es u → IsHeld u
Runs-IsHeld h here = h
Runs-IsHeld h (next {u} {v} e r s) = thread_step-IsHeld e u v (Runs-IsHeld h r) s

-- The steps that are left to a thread that was told to stop and to its module, and its messages.
abbrev steps_left : Thread → ℕ
steps_left t = (if t.alive then (if t.in_body then 2 else 1) else 0) + (if t.loaded then 1 else 0)

abbrev to_print : Thread → ℕ
to_print t = if t.in_body then 1 else 0

thread_step-told :
    (e : Event) (t u : Thread)
    → t.should_stop ≡ true
    → thread_step e t ≡ some u
    → (u.should_stop ≡ true)
      × (steps_left t ≡ suc (steps_left u))
      × (u.printed + to_print u ≡ t.printed + to_print t)
unfolding thread_step example_thread_function exit_begins exit_ends
thread_step-told turn t u h e = ground arith
thread_step-told stop t u h e = ground arith
thread_step-told stopped t u h e = ground arith

-- What follows once the thread was told to stop.
Runs-told :
    {t u : Thread} {es : List Event}
    → t.should_stop ≡ true
    → Runs t es u
    → (u.should_stop ≡ true)
      × (steps_left t ≡ length es + steps_left u)
      × (u.printed + to_print u ≡ t.printed + to_print t)
Runs-told h here = (h, omega arith, refl)
Runs-told h (next {u} {v} e r s) =
    let (a, b, c) = Runs-told h r in
    let (d, f, g) = thread_step-told e u v a s in (d, omega (arith, b, f), omega (arith, c, g))

-- Either something can happen, or the module and its thread are gone.
abbrev pub GoesOn : Thread → Type 0
GoesOn t =
    ((t.alive ≡ false) × (t.loaded ≡ false))
    ⊎ ((e : Event) × (u : Thread) × (thread_step e t ≡ some u))

goes_on : (t : Thread) → IsHeld t → t.should_stop ≡ true → GoesOn t
unfolding thread_step exit_ends
goes_on t h told = elim (Bool-cases t.alive) [
  | inl a ↦ inr (turn, example_thread_function t, rw a refl)
  | inr d ↦ elim (Bool-cases t.loaded) [
    | inl l ↦ inr (stopped, record t { loaded = false }, rw (l, told, d) refl)
    | inr g ↦ inl (d, g)
  ]
]

abbrev pub start : Thread
start = (thread_init true).1

start-IsHeld : IsHeld start
unfolding thread_init
start-IsHeld = (refl, refl, refl)

-- In every order of the events, the timer of example-III-04.c is neither set nor running once its
-- module is removed, while that of example-III-03.c can be set again after the removal. The thread
-- of example-V-02.c is not there once its module is removed, and while the module is there it has
-- ended only if it was told to. From any moment at which it was told to stop, in every order, at
-- most three more steps are made, at most one more message is printed, and none but by a thread
-- that was in the body of its loop; and whenever these steps come to an end, the thread and the
-- module are gone.
pub removals-ended :
    {t u : Timer} {v w : Thread} {es fs : List Event}
    → IsQuiet t
    → Reach hrtimer_step t u
    → Runs start es v
    → v.should_stop ≡ true
    → Runs v fs w
    → IsQuiet u
      × Reach timer_step example_init left_set
      × IsHeld v
      × IsHeld w
      × (length fs ≤ 3)
      × (w.printed ≤ v.printed + (if v.in_body then 1 else 0))
      × GoesOn w
removals-ended {v = v} {w = w} q r s told more =
    let (a, b) = removals-IsQuiet q r in
    let h = Runs-IsHeld start-IsHeld s in
    let k = Runs-IsHeld h more in
    let (still, steps, printed) = Runs-told told more in
    (a, b, h, k, ground (arith, steps), omega (arith, printed), goes_on w k still)
