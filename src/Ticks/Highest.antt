-- ===== src/Ticks/Highest.antt =====
-- The first argument of `select` in exemples/05-acces-au-materiel/test-select.c.
use ild.Base.{
  length, ◌≡◌, refl, ap, pos, negsuc, ℕ, ◌+◌, ◌≤◌, suc, ℤ, Bool, true, false, List, [], ◌∷◌, Option,
  none, some, ltb, if◌then◌else◌, arith,
}
use ild.Ticks.Watch.{open_all, highest, set_up}

-- The first argument of `select` is above every file.
abbrev pub AllUnder : ℕ → List ℕ → Type 0
AllUnder n [] = Unit {0}
AllUnder n (fd ∷ fds) = (suc fd ≤ n) × AllUnder n fds

higher : (n fd : ℕ) → n ≤ (if ltb n fd then fd else n) × fd ≤ (if ltb n fd then fd else n)
higher n fd = (ground arith, ground arith)

highest-above : (fds : List ℕ) (n : ℕ) → n ≤ highest fds n
unfolding highest
highest-above [] n = omega arith
highest-above (fd ∷ fds) n =
    let next = if ltb n fd then fd else n in omega (arith, (higher n fd).0, highest-above fds next)

highest-AllUnder : (fds : List ℕ) (n m : ℕ) → suc (highest fds n) ≤ m → AllUnder m fds
unfolding highest
highest-AllUnder [] n m h = tt
highest-AllUnder (fd ∷ fds) n m h =
    let next = if ltb n fd then fd else n in
    (omega (arith, h, (higher n fd).1, highest-above fds next), highest-AllUnder fds next m h)

-- As many files as arguments.
abbrev pub HasLength : ℕ → Option (List ℕ) → Type 0
HasLength n none = Unit {0}
HasLength n (some fds) = length fds ≡ n

open_all-HasLength : (results : List ℤ) → HasLength (length results) (open_all results)
unfolding open_all
open_all-HasLength [] = refl
open_all-HasLength (negsuc n ∷ results) = tt
open_all-HasLength (pos fd ∷ results) = go (open_all results) (open_all-HasLength results)
  where
    go :
        (opened : Option (List ℕ))
        → HasLength (length results) opened
        → HasLength
            (suc (length results))
            (elim opened [ none ↦ none | some fds ↦ some (fd ∷ fds) ])
    go none h = tt
    go (some fds) h = ap suc h

-- The files and the first argument, beside the arguments of the program.
abbrev pub SetsUp : ℕ → Option (List ℕ × ℕ) → Type 0
SetsUp k none = Unit {0}
SetsUp k (some (fds, n)) = AllUnder n fds × (length fds ≡ k)

pub set_up-SetsUp :
    (calloc : Bool) (results : List ℤ) → SetsUp (length results) (set_up calloc results)
unfolding set_up
set_up-SetsUp calloc [] = tt
set_up-SetsUp false (fd ∷ results) = tt
set_up-SetsUp true (fd ∷ results) = go (open_all (fd ∷ results)) (open_all-HasLength (fd ∷ results))
  where
    go :
        (opened : Option (List ℕ))
        → HasLength (suc (length results)) opened
        → SetsUp
            (suc (length results))
            (elim opened [ none ↦ none | some fds ↦ some (fds, highest fds 0 + 1) ])
    go none h = tt
    go (some fds) h = (highest-AllUnder fds 0 (highest fds 0 + 1) (omega arith), h)
