-- ===== src/Chardev/Collision.antt =====
-- Two readers that collide in exemples/04-driver-caracteres/example-IV-07.c.
use ild.Base.{
  ℕ, zero, suc, ◌+◌, ◌%◌, ◌^◌, ◌<◌, ◌==◌, ◌≡◌, refl, sym, ap, ◌∙◌, Option, some, false, arith,
}
use ild.Chardev.{
  Phase, outside, entering, stored, looping, chosen, returned, Mark, dot, sharp, State, Event, call,
  run, tick, move_to, deadline, time_before, mark, give, start_call, next_tick, Reach, here, next,
  time_before-deadline,
}
use ild.Chardev.Race.{unlocked_read, unlocked_step}

-- A state that the steps lead to, with the phases of two readers, the variable and the clock.
record Situation (s : State) (p q : ℕ) (x y : Phase) (c j : ℕ) : Type 0 where
  now : State
  path : Reach unlocked_step s now
  first : now.phases p ≡ x
  second : now.phases q ≡ y
  variable_ : now.current_pid ≡ c
  clock : now.jiffies ≡ j

module _ {s : State} {x y : Phase} {c j : ℕ} where
  swap : {p q : ℕ} → Situation s p q x y c j → Situation s q p y x c j
  swap m = record {
    now = m.now;
    path = m.path;
    first = m.second;
    second = m.first;
    variable_ = m.variable_;
    clock = m.clock;
  }

  -- A step that moves the first reader and may write the variable.
  advance :
      {p q : ℕ} (x' : Phase) (c' : ℕ) (e : Event)
      → (q == p) ≡ false
      → (m : Situation s p q x y c j)
      → unlocked_step e m.now ≡ some (move_to p x' (record (m.now) { current_pid = c' }))
      → Situation s p q x' y c' j
  advance {p} {q} x' c' e d m h = record {
    now = move_to p x' (record (m.now) { current_pid = c' });
    path = next e m.path h;
    first = ground arith;
    second = rw d (m.second);
    variable_ = refl;
    clock = m.clock;
  }

  -- The same for a step that leaves the variable alone.
  keep :
      {p q : ℕ} (x' : Phase) (e : Event)
      → (q == p) ≡ false
      → (m : Situation s p q x y c j) → unlocked_step e m.now ≡ some (move_to p x' m.now)
      → Situation s p q x' y c j
  keep {p} {q} x' e d m h = record {
    now = move_to p x' m.now;
    path = next e m.path h;
    first = ground arith;
    second = rw d (m.second);
    variable_ = m.variable_;
    clock = m.clock;
  }

  read_step :
      {p q : ℕ} (m : Situation s p q x y c j) {r : Option State}
      → unlocked_read p x m.now ≡ r
      → unlocked_step (run p) m.now ≡ r
  unfolding unlocked_step
  read_step {p} m h = rw m.first h

module _ (s : State) (p q : ℕ) (d : (q == p) ≡ false) {y : Phase} {c j : ℕ} (size left : ℕ) where
  enter : Situation s p q outside y c j → Situation s p q (entering size left) y c j
  unfolding unlocked_step start_call
  enter m = keep (entering size left) (call p size left) d m (rw m.first refl)

  store : Situation s p q (entering size left) y c j → Situation s p q (stored size left) y p j
  unfolding unlocked_read
  store m = advance (stored size left) p (run p) d m (read_step m refl)

  prepare :
      Situation s p q (stored size left) y c j
      → Situation s p q (looping size left (deadline j)) y c j
  unfolding unlocked_read
  prepare m =
      keep (looping size left (deadline j)) (run p) d m (read_step m (rw (sym m.clock) refl))

  choose :
      (delay : ℕ)
      → time_before j delay ≡ false
      → Situation s p q (looping size left delay) y c j
      → Situation s p q (chosen size left (mark c p)) y c j
  unfolding unlocked_read
  choose delay over m =
      keep (chosen size left (mark c p)) (run p) d m
        (read_step m (rw (m.clock, over, m.variable_) refl))

  leave :
      (k : Mark)
      → Situation s p q (chosen size left k) y c j
      → Situation s p q (returned size left (give k size left)) y c j
  unfolding unlocked_read
  leave k m = keep (returned size left (give k size left)) (run p) d m (read_step m refl)

module _ {s : State} {p q : ℕ} {x y : Phase} {c j : ℕ} where
  pass : (n : ℕ) → j < 2 ^ 64 → Situation s p q x y c j → Situation s p q x y c ((j + n) % 2 ^ 64)
  unfolding unlocked_step next_tick
  pass zero h m = record {
    now = m.now;
    path = m.path;
    first = m.first;
    second = m.second;
    variable_ = m.variable_;
    clock = m.clock ∙ omega arith;
  }
  pass (suc n) h m =
      let k = pass n h m in
      record {
        now = next_tick k.now;
        path = next tick k.path refl;
        first = k.first;
        second = k.second;
        variable_ = k.variable_;
        clock = ap (λ i. (i + 1) % 2 ^ 64) k.clock ∙ omega arith;
      }

-- Both readers have stored their pids and computed their deadlines, the second one last.
both_loop :
    (s : State) (p q size left : ℕ)
    → (q == p) ≡ false
    → (p == q) ≡ false
    → Situation s p q outside outside s.current_pid s.jiffies
    → Situation s p q
        (looping size left (deadline s.jiffies))
        (looping size left (deadline s.jiffies))
        q
        s.jiffies
both_loop s p q size left d e m =
    let first = prepare s p q d size left (store s p q d size left (enter s p q d size left m)) in
    swap
      (prepare s q p e size left (store s q p e size left (enter s q p e size left (swap first))))

-- After the loops both compare, and the first one finds the pid of the second.
both_return :
    (s : State) (p q size left j : ℕ) (delay : ℕ)
    → (q == p) ≡ false
    → (p == q) ≡ false
    → time_before j delay ≡ false
    → Situation s p q (looping size left delay) (looping size left delay) q j
    → Situation s p q
        (returned size left (give (mark q p) size left))
        (returned size left (give (mark q q) size left))
        q
        j
both_return s p q size left j delay d e over m =
    let first = leave s p q d size left (mark q p) (choose s p q d size left delay over m) in
    swap (leave s q p e size left (mark q q) (choose s q p e size left delay over (swap first)))

mark_other : (p q : ℕ) → (q == p) ≡ false → (mark q p ≡ sharp) × (mark q q ≡ dot)
unfolding mark
mark_other p q d = ground arith

-- With no mutex, and two processes of different pids that are in no call, there is an order of the
-- steps in which both read and the first one returns "#", or what comes in its place for a buffer
-- that is too short or a copy that fails.
pub readers_collide :
    (s : State) (p q size left : ℕ)
    → (q == p) ≡ false
    → s.phases p ≡ outside
    → s.phases q ≡ outside
    → s.jiffies < 2 ^ 64
    → (t : State) × Reach unlocked_step s t
      × (t.phases p ≡ returned size left (give sharp size left))
      × (t.phases q ≡ returned size left (give dot size left))
readers_collide s p q size left d a b h =
    let e : (p == q) ≡ false = ground arith in
    let m =
      both_return s p q size left ((s.jiffies + 10) % 2 ^ 64) (deadline s.jiffies) d e
        (time_before-deadline s.jiffies 10 h (omega arith))
        (pass 10 h (
          both_loop s p q size left d e (record {
            now = s;
            path = here;
            first = a;
            second = b;
            variable_ = refl;
            clock = refl;
          }))) in
    (m.now, m.path, rw (sym (mark_other p q d).0) m.first, rw (sym (mark_other p q d).1) m.second)
