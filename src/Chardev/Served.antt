-- ===== src/Chardev/Served.antt =====
-- Every step of exemples/04-driver-caracteres/example-IV-08.c keeps the readers apart.
use mathlib.Core.Option.{some-injective}
use ild.Base.{
  ℕ, ◌≡◌, refl, sym, inl, inr, Option, none, some, [], neg, Bool, true, false, if◌then◌else◌, arith,
}
use ild.Kernel.Errno.{erestartsys}
use ild.Kernel.Copy.{reply}
use ild.Chardev.{
  Phase, outside, entering, locked, stored, looping, chosen, leaving, returned, dot, State, Event,
  call, run, interrupt, tick, move_to, deadline, time_before, mark, give, start_call, next_tick,
  Reach, here, next,
}
use ild.Chardev.Locked.{take_mutex, locked_read, interrupt_read, locked_step}
use ild.Chardev.Exclusion.{
  is_inside, IsSound, IsExclusive, IsExclusive-stay, IsExclusive-take, IsExclusive-leave,
}

-- The state that a step which is possible leads to.
arrive : {u t : State} → IsExclusive u → some u ≡ some t → IsExclusive t
arrive {u} {t} k e = rw (sym (some-injective u t e)) k

blocked : {t : State} → none ≡ some t → IsExclusive t
blocked {t} e = absurd (ground (arith, e))

arrive_if :
    (b : Bool) {u v t : State}
    → IsExclusive u
    → IsExclusive v
    → (if b then some u else some v) ≡ some t
    → IsExclusive t
arrive_if true k l e = arrive k e
arrive_if false k l e = arrive l e

mark_own : (c p : ℕ) → c ≡ p → mark c p ≡ dot
unfolding mark
mark_own c p e = ground arith

module _ (s : State) (p : ℕ) (k : IsExclusive s) where
  stay :
      (x : Phase)
      → is_inside x ≡ is_inside (s.phases p)
      → IsSound x p s.current_pid
      → IsExclusive (move_to p x s)
  stay x same sound = IsExclusive-stay s p x k s.current_pid same (inl refl) sound

  relies : (x : Phase) → s.phases p ≡ x → IsSound x p s.current_pid
  relies x e = rw (sym e) (k.sound p)

  start_call-IsExclusive :
      (size left : ℕ) (x : Phase) {t : State}
      → s.phases p ≡ x
      → start_call p size left x s ≡ some t
      → IsExclusive t
  unfolding start_call
  start_call-IsExclusive size left outside e h = arrive (stay (entering size left) (rw e refl) tt) h
  start_call-IsExclusive size left (returned _ _ _) e h =
      arrive (stay (entering size left) (rw e refl) tt) h
  start_call-IsExclusive size left x e h = blocked h

  take_mutex-IsExclusive :
      (size left : ℕ) (o : Option ℕ) {t : State}
      → s.phases p ≡ entering size left
      → s.owner ≡ o
      → take_mutex p size left o s ≡ some t
      → IsExclusive t
  unfolding take_mutex
  take_mutex-IsExclusive size left none e f h =
      arrive (IsExclusive-take s p (locked size left) k f refl tt) h
  take_mutex-IsExclusive size left (some q) e f h = blocked h

  locked_read-IsExclusive :
      (x : Phase) {t : State} → s.phases p ≡ x → locked_read p x s ≡ some t → IsExclusive t
  unfolding locked_read
  locked_read-IsExclusive outside e h = blocked h
  locked_read-IsExclusive (entering size left) e h =
      take_mutex-IsExclusive size left s.owner e refl h
  locked_read-IsExclusive (locked size left) e h =
      arrive (IsExclusive-stay s p (stored size left) k p (rw e refl) (inr (rw e refl)) refl) h
  locked_read-IsExclusive (stored size left) e h =
      arrive (stay (looping size left (deadline s.jiffies)) (rw e refl) (relies _ e)) h
  locked_read-IsExclusive (looping size left delay) e h =
      arrive_if (time_before s.jiffies delay) k
        (stay (chosen size left (mark s.current_pid p)) (rw e refl)
          (mark_own s.current_pid p (relies _ e)))
        h
  locked_read-IsExclusive (chosen size left m) e h =
      arrive (IsExclusive-leave s p (leaving size left m) k (rw e refl) refl (relies _ e)) h
  locked_read-IsExclusive (leaving size left m) e h =
      arrive (stay (returned size left (give m size left)) (rw e refl) (inl (rw (relies _ e) refl)))
        h
  locked_read-IsExclusive (returned _ _ _) e h = blocked h

  interrupt_read-IsExclusive :
      (x : Phase) {t : State} → s.phases p ≡ x → interrupt_read p x s ≡ some t → IsExclusive t
  unfolding interrupt_read
  interrupt_read-IsExclusive (entering size left) e h =
      arrive (stay (returned size left (reply (neg erestartsys) [])) (rw e refl) (inr refl)) h
  interrupt_read-IsExclusive x e h = blocked h

tick-IsExclusive : (s : State) → IsExclusive s → IsExclusive (next_tick s)
unfolding next_tick
tick-IsExclusive s k = record { holds = k.holds; held = k.held; sound = k.sound }

locked_step-IsExclusive :
    (e : Event) (s : State) {t : State} → IsExclusive s → locked_step e s ≡ some t → IsExclusive t
unfolding locked_step
locked_step-IsExclusive (call p size left) s k h =
    start_call-IsExclusive s p k size left (s.phases p) refl h
locked_step-IsExclusive (run p) s k h = locked_read-IsExclusive s p k (s.phases p) refl h
locked_step-IsExclusive (interrupt p) s k h = interrupt_read-IsExclusive s p k (s.phases p) refl h
locked_step-IsExclusive tick s k h = arrive (tick-IsExclusive s k) h

-- In every order of the steps of any number of processes, a reader that is inside holds the mutex,
-- the holder of the mutex is inside, and a reader that has returned got what its own pid gives it,
-- or -ERESTARTSYS.
pub Reach-IsExclusive : {s t : State} → IsExclusive s → Reach locked_step s t → IsExclusive t
Reach-IsExclusive k here = k
Reach-IsExclusive k (next {t} e r h) = locked_step-IsExclusive e t (Reach-IsExclusive k r) h
