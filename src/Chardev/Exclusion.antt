-- ===== src/Chardev/Exclusion.antt =====
-- What the mutex of exemples/04-driver-caracteres/example-IV-08.c ensures.
use ild.Base.{
  ℕ, ◌==◌, ◌≡◌, sym, ap, ◌∙◌, ◌⊎◌, inl, inr, none, some, [], neg, Bool, true, false, Bool-cases,
  arith,
}
use ild.Kernel.Errno.{erestartsys}
use ild.Kernel.Copy.{reply}
use ild.Chardev.{
  Phase, outside, entering, locked, stored, looping, chosen, leaving, returned, dot, State, move_to,
  give,
}

abbrev pub is_inside : Phase → Bool
is_inside (locked _ _) = true
is_inside (stored _ _) = true
is_inside (looping _ _ _) = true
is_inside (chosen _ _ _) = true
is_inside _ = false

-- What a reader may rely on, from its phase: a reader that has stored its pid finds it again.
abbrev pub IsSound : Phase → ℕ → ℕ → Type 0
IsSound (stored _ _) p current_pid = current_pid ≡ p
IsSound (looping _ _ _) p current_pid = current_pid ≡ p
IsSound (chosen _ _ m) p current_pid = m ≡ dot
IsSound (leaving _ _ m) p current_pid = m ≡ dot
IsSound (returned size left r) p current_pid =
    (r ≡ give dot size left) ⊎ (r ≡ reply (neg erestartsys) [])
IsSound _ p current_pid = Unit {0}

-- The holder of the mutex is the one reader inside, and every reader is sound.
pub record IsExclusive (s : State) : Type 0 where
  pub holds : (p : ℕ) → is_inside (s.phases p) ≡ true → s.owner ≡ some p
  pub held : (p : ℕ) → s.owner ≡ some p → is_inside (s.phases p) ≡ true
  pub sound : (p : ℕ) → IsSound (s.phases p) p s.current_pid

-- A reader that is not inside does not depend on the variable.
IsSound-outside : (x : Phase) (p c d : ℕ) → is_inside x ≡ false → IsSound x p c → IsSound x p d
IsSound-outside outside p c d e h = tt
IsSound-outside (entering _ _) p c d e h = tt
IsSound-outside (leaving _ _ _) p c d e h = h
IsSound-outside (returned _ _ _) p c d e h = h
IsSound-outside (locked _ _) p c d e h = tt
IsSound-outside (stored _ _) p c d e h = ground arith
IsSound-outside (looping _ _ _) p c d e h = ground arith
IsSound-outside (chosen _ _ _) p c d e h = ground arith

==→≡ : (q p : ℕ) → (q == p) ≡ true → q ≡ p
==→≡ q p e = ground arith

owners_distinct : (q p : ℕ) → (q == p) ≡ false → ¬ (some q ≡ some p)
owners_distinct q p e h = ground arith

no_owner : (p : ℕ) → ¬ (none ≡ some p)
no_owner p h = ground arith

module _ (s : State) (p : ℕ) (x : Phase) (k : IsExclusive s) where
  -- No other reader is inside with one that is.
  other_outside :
      (q : ℕ) → (q == p) ≡ false → is_inside (s.phases p) ≡ true → is_inside (s.phases q) ≡ false
  other_outside q e h = elim (Bool-cases (is_inside (s.phases q))) [
    | inl i ↦ absurd (owners_distinct q p e (sym (k.holds q i) ∙ k.holds p h))
    | inr o ↦ o
  ]

  -- A step inside, or outside, of one reader, which writes the variable only inside.
  pub IsExclusive-stay :
      (c : ℕ)
      → is_inside x ≡ is_inside (s.phases p)
      → (c ≡ s.current_pid) ⊎ (is_inside (s.phases p) ≡ true)
      → IsSound x p c
      → IsExclusive (move_to p x (record s { current_pid = c }))
  IsExclusive-stay c same write sound = record {
    holds = λ q. elim (Bool-cases (q == p)) [
      | inl e ↦ rw e (λ i. k.holds p (sym same ∙ i) ∙ ap some (sym (==→≡ q p e)))
      | inr e ↦ rw e (k.holds q)
    ];
    held = λ q. elim (Bool-cases (q == p)) [
      | inl e ↦ rw e (λ i. same ∙ k.held p (i ∙ ap some (==→≡ q p e)))
      | inr e ↦ rw e (k.held q)
    ];
    sound = λ q. elim (Bool-cases (q == p)) [
      | inl e ↦ rw (e, ==→≡ q p e) sound
      | inr e ↦ rw e (elim write [
        | inl w ↦ rw w (k.sound q)
        | inr w ↦ IsSound-outside (s.phases q) q s.current_pid c (other_outside q e w) (k.sound q)
      ])
    ];
  }

  -- The mutex is taken when it is free.
  pub IsExclusive-take :
      s.owner ≡ none
      → is_inside x ≡ true
      → IsSound x p s.current_pid
      → IsExclusive (move_to p x (record s { owner = some p }))
  IsExclusive-take free i sound = record {
    holds = λ q. elim (Bool-cases (q == p)) [
      | inl e ↦ rw e (λ j. ap some (sym (==→≡ q p e)))
      | inr e ↦ rw e (λ j. absurd (no_owner q (sym free ∙ k.holds q j)))
    ];
    held = λ q. elim (Bool-cases (q == p)) [
      | inl e ↦ rw e (λ j. i)
      | inr e ↦ rw e (λ j. absurd (owners_distinct q p e (sym j)))
    ];
    sound = λ q. elim (Bool-cases (q == p)) [
      | inl e ↦ rw (e, ==→≡ q p e) sound
      | inr e ↦ rw e (k.sound q)
    ];
  }

  -- The mutex is given back on the way out.
  pub IsExclusive-leave :
      is_inside (s.phases p) ≡ true
      → is_inside x ≡ false
      → IsSound x p s.current_pid
      → IsExclusive (move_to p x (record s { owner = none }))
  IsExclusive-leave i o sound = record {
    holds = λ q. elim (Bool-cases (q == p)) [
      | inl e ↦ rw e (λ j. absurd (ground (arith, o, j)))
      | inr e ↦ rw e (λ j. absurd (ground (arith, j, other_outside q e i)))
    ];
    held = λ q j. absurd (no_owner q j);
    sound = λ q. elim (Bool-cases (q == p)) [
      | inl e ↦ rw (e, ==→≡ q p e) sound
      | inr e ↦ rw e (k.sound q)
    ];
  }
