-- ===== src/Proc/Parents.antt =====
-- exemples/02-appels-systeme/example-II-01.c: the chain of the parents of the process that loads
-- the module.
use mathlib.Core.Path.{subst}
use ild.Base.{
  ℕ, zero, suc, ◌+◌, ◌≤◌, ◌<◌, ◌≡◌, refl, ◌∙◌, ap, ◌==◌, Bool, true, false, if◌then◌else◌, List, [],
  ◌∷◌, ◌++◌, Option, none, some, length, append_assoc, Bool-cases, inl, inr, arith,
}

abbrev is_self : ℕ → Option ℕ → Bool
is_self task none = false
is_self task (some parent) = parent == task

-- A task as its address and the pid that is printed; `real_parent` and `pid_of` read the kernel's
-- tasks. NULL is `none`.
module _ (real_parent : ℕ → Option ℕ) (pid_of : ℕ → ℕ) where
  -- The lines printed, each with its index, and whether the loop was left.
  unfoldable pub walk : ℕ → ℕ → Option ℕ → List (ℕ × ℕ) → List (ℕ × ℕ) × Bool
  walk zero i task printed = (printed, false)
  walk (suc fuel) i none printed = (printed, true)
  walk (suc fuel) i (some task) printed =
      let lines = printed ++ (i, pid_of task) ∷ [] in
      let rest = walk fuel (i + 1) (real_parent task) lines in
      if is_self task (real_parent task) then (lines, true) else rest

  -- A task whose chain of parents is finite, with the pids from it up to a task that is its own
  -- parent, or that has none.
  pub data IsChain : ℕ → List ℕ → Type 0 where
    own : {t : ℕ} → real_parent t ≡ some t → IsChain t (pid_of t ∷ [])
    orphan : {t : ℕ} → real_parent t ≡ none → IsChain t (pid_of t ∷ [])
    child :
        {t p : ℕ} {pids : List ℕ}
        → real_parent t ≡ some p
        → (p == t) ≡ false
        → IsChain p pids
        → IsChain t (pid_of t ∷ pids)

  -- Parents of a smaller depth, or none, or the task itself.
  abbrev pub IsBelow : (ℕ → ℕ) → ℕ → Option ℕ → Type 0
  IsBelow depth t none = Unit {0}
  IsBelow depth t (some p) = ((p == t) ≡ false) → depth p < depth t

  pub ancestors :
      (depth : ℕ → ℕ) (n t : ℕ) (o : Option ℕ)
      → ((u : ℕ) → IsBelow depth u (real_parent u))
      → real_parent t ≡ o
      → depth t < n
      → (pids : List ℕ) × IsChain t pids × (length pids ≤ n)
  ancestors depth zero t o below e h = absurd (omega arith)
  ancestors depth (suc n) t none below e h = (pid_of t ∷ [], orphan e, omega arith)
  ancestors depth (suc n) t (some p) below e h = elim (Bool-cases (p == t)) [
    | inl s ↦ (pid_of t ∷ [], own (e ∙ ap some (equal s)), omega arith)
    | inr d ↦
        let less = subst (IsBelow depth t) e (below t) d in
        let (pids, chain, bound) =
          ancestors depth n p (real_parent p) below refl (omega (arith, less, h)) in
        (pid_of t ∷ pids, child e d chain, omega (arith, bound))
  ]
    where
      equal : {a b : ℕ} → (a == b) ≡ true → a ≡ b
      equal e = ground arith

  -- The lines of a chain.
  abbrev pub numbered : ℕ → List ℕ → List (ℕ × ℕ)
  numbered i [] = []
  numbered i (pid ∷ pids) = (i, pid) ∷ numbered (i + 1) pids

  walk-chain :
      (fuel : ℕ) {t : ℕ} {pids : List ℕ} (i : ℕ) (printed : List (ℕ × ℕ))
      → IsChain t pids
      → length pids < fuel
      → walk fuel i (some t) printed ≡ (printed ++ numbered i pids, true)
  unfolding walk
  walk-chain zero i printed c h = absurd (omega arith)
  walk-chain (suc fuel) i printed (own {t} e) h = rw e (ground arith)
  walk-chain (suc zero) i printed (orphan e) h = absurd (omega arith)
  walk-chain (suc (suc fuel)) i printed (orphan e) h = rw e refl
  walk-chain (suc fuel) i printed (child {t} {p} {pids} e d c) h =
      rw (e, d)
        (walk-chain fuel (i + 1) (printed ++ (i, pid_of t) ∷ []) c (omega (arith, h))
          ∙ ap (λ l. (l, true)) (append_assoc printed ((i, pid_of t) ∷ []) (numbered (i + 1) pids)))

  -- When every task's parent is of a smaller depth, or none, or the task itself, the loop is left
  -- after at most as many turns as the depth of the first task and two, and it prints the pids of
  -- its whole chain, numbered from 0.
  walk-ends :
      (depth : ℕ → ℕ) (t fuel : ℕ)
      → ((u : ℕ) → IsBelow depth u (real_parent u))
      → depth t + 1 < fuel
      → (pids : List ℕ) × IsChain t pids × (walk fuel 0 (some t) [] ≡ (numbered 0 pids, true))
  walk-ends depth t fuel below h =
      let (pids, chain, bound) =
        ancestors depth (depth t + 1) t (real_parent t) below refl (omega arith) in
      (pids, chain, walk-chain fuel 0 [] chain (omega (arith, bound, h)))
