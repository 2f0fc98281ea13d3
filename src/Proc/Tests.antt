-- ===== src/Proc/Tests.antt =====
-- The /proc files at small inputs.
use ild.Base.{
  ℕ, ◌+◌, ◌-◌, ◌%◌, ◌^◌, ◌≡◌, refl, List, [], ◌∷◌, leb, if◌then◌else◌, true, Option, none, some,
  length, arith,
}
use ild.Kernel.Format.{decimal}
use ild.Kernel.Task.{Task}
use ild.Kernel.Buffer.{reference_read, reference_read-IsSimpleRead}
use ild.Text.Cat.{cat}
use ild.Proc.Current.{task_text, whole_read, piece_read, simple_read, pid_text}
use ild.Proc.Value.{value_text, value_read, value_write, sum_text, sum_read, sum_write}
use ild.Proc.Reads.{cat-current}
use ild.Proc.Parents.{walk, IsBelow}
use ild.Proc.Writes.{Write, total, last, run_sum, run_value, cat-writes}

abbrev shell : Task
shell = record { pid = 12; ppid = 1; comm = b's' ∷ b'h' ∷ [] }

-- A reader that knows one digit.
abbrev one_digit : List ℕ → Option ℕ
one_digit (x ∷ []) = some (x - 48)
one_digit _ = none

abbrev write_of : List ℕ → ℕ → Write
write_of bytes left = record { u_buffer = bytes; nb = length bytes; left = left }

-- "5", "4" whose copy fails, "xy", "3".
abbrev writes : List Write
writes =
    write_of (53 ∷ []) 0
    ∷ write_of (52 ∷ []) 1
    ∷ write_of (b'x' ∷ b'y' ∷ []) 0
    ∷ write_of (51 ∷ []) 0
    ∷ []

pid_of_shell : pid_text shell ≡ 49 ∷ 50 ∷ 10 ∷ []
unfolding pid_text decimal
pid_of_shell = refl

adds_and_stores : (run_sum one_digit writes 1 ≡ 9) × (run_value one_digit writes 1 ≡ 3)
unfolding sum_write value_write
adds_and_stores = (refl, refl)

cat-writes_example :
    (let s = (1 + total one_digit writes) % 2 ^ 32 in
      cat sum_read 32 7 (run_sum one_digit writes 1) 0 [] ≡ some (sum_text s, s))
    × (let v = last one_digit writes 1 in
        cat (value_read reference_read shell) 128 7 (run_value one_digit writes 1) 0 []
        ≡ some (value_text shell v, v))
cat-writes_example =
    cat-writes one_digit reference_read shell writes 1 1 7 reference_read-IsSimpleRead (omega arith)
      (omega arith)

cat-current_example :
    (cat piece_read 128 100 shell 0 [] ≡ some (task_text shell, shell))
    × (cat (simple_read reference_read) 128 100 shell 0 [] ≡ some (task_text shell, shell))
    × (cat whole_read 5 100 shell 0 []
        ≡ (if leb (length (task_text shell)) 100 then none else some ([], shell)))
cat-current_example =
    cat-current reference_read shell 100 4 reference_read-IsSimpleRead (omega arith)

-- The pids 3, 2, 1 and 0, and 0 is its own parent.
abbrev parent : ℕ → Option ℕ
parent t = some (t - 1)

shallower : (t : ℕ) → IsBelow parent (λ u. u) (λ u. u) t (parent t)
shallower t h = ground arith

prints_chain : walk parent (λ u. u) 5 0 (some 3) [] ≡ ((0, 3) ∷ (1, 2) ∷ (2, 1) ∷ (3, 0) ∷ [], true)
unfolding walk
prints_chain = refl
