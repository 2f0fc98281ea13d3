-- ===== src/Proc/Writes.antt =====
-- The writes of exemples/02-appels-systeme/example-II-06.c and of solutions/tp-II-03-proc-sum.c,
-- and what a reader finds after them.
use ild.Base.{
  ℕ, ◌+◌, ◌%◌, ◌^◌, ◌<◌, ◌≡◌, refl, ap, ◌∙◌, List, [], ◌∷◌, ◌++◌, ltb, ◌==◌, ◌&&◌, if◌then◌else◌,
  Option, none, some, length, length-take, arith,
}
use ild.Kernel.Copy.{from_user}
use ild.Kernel.Task.{Task, c_string, length-snprintf}
use ild.Kernel.Buffer.{SimpleRead, IsSimpleRead}
use ild.Kernel.Format.{show_d, newline}
use ild.Text.Cat.{cat, cat-IsReadOf, read_device-IsReadOf}
use ild.Proc.Value.{value_line, value_text, value_read, value_write, sum_text, sum_read, sum_write}
use ild.Proc.Reads.{simple_answer-IsReadOf}

-- A write system call: the caller's bytes, how many of them it writes, how many cannot be copied.
pub record Write : Type 0 where
  pub u_buffer : List ℕ
  pub nb : ℕ
  pub left : ℕ

module _ (sscanf : List ℕ → Option ℕ) where
  -- The number of a write that fits in the kernel's buffer with a NUL, and that can be copied.
  abbrev pub number : Write → Option ℕ
  number w =
      if ltb w.nb 128 && w.left == 0
      then sscanf (c_string (from_user w.u_buffer w.nb 0 ++ 0 ∷ []))
      else none

  abbrev pub run_sum : List Write → ℕ → ℕ
  run_sum [] sum = sum
  run_sum (w ∷ ws) sum = run_sum ws (sum_write sscanf w.u_buffer w.nb w.left sum).1

  abbrev pub run_value : List Write → ℕ → ℕ
  run_value [] value = value
  run_value (w ∷ ws) value = run_value ws (value_write sscanf w.u_buffer w.nb w.left value).1

  abbrev pub or_zero : Option ℕ → ℕ
  or_zero none = 0
  or_zero (some n) = n

  abbrev pub total : List Write → ℕ
  total [] = 0
  total (w ∷ ws) = or_zero (number w) + total ws

  abbrev pub or_else : ℕ → Option ℕ → ℕ
  or_else value none = value
  or_else value (some n) = n

  -- The last number written, or the first value.
  abbrev pub last : List Write → ℕ → ℕ
  last [] value = value
  last (w ∷ ws) value = last ws (or_else value (number w))

  sum_write-number :
      (w : Write) (sum : ℕ)
      → sum < 2 ^ 32
      → (sum_write sscanf w.u_buffer w.nb w.left sum).1 ≡ (sum + or_zero (number w)) % 2 ^ 32
  unfolding sum_write
  sum_write-number w sum h = ground arith

  value_write-number :
      (w : Write) (value : ℕ)
      → (value_write sscanf w.u_buffer w.nb w.left value).1 ≡ or_else value (number w)
  unfolding value_write
  value_write-number w value = ground arith

  run_sum-total :
      (ws : List Write) (sum : ℕ) → sum < 2 ^ 32 → run_sum ws sum ≡ (sum + total ws) % 2 ^ 32
  run_sum-total [] sum h = omega arith
  run_sum-total (w ∷ ws) sum h =
      ap (run_sum ws) (sum_write-number w sum h)
      ∙ run_sum-total ws ((sum + or_zero (number w)) % 2 ^ 32) (omega arith)
      ∙ omega arith

  run_value-last : (ws : List Write) (value : ℕ) → run_value ws value ≡ last ws value
  run_value-last [] value = refl
  run_value-last (w ∷ ws) value =
      ap (run_value ws) (value_write-number w value) ∙ run_value-last ws (or_else value (number w))

length-sum_text : (sum : ℕ) → length (sum_text sum) < 32
unfolding sum_text
length-sum_text sum = omega (arith, length-take 31 (show_d sum ++ newline))

length-value_text : (task : Task) (value : ℕ) → length (value_text task value) < 128
unfolding value_text
length-value_text task value = length-snprintf (value_line task value)

cat-sum : (sum max : ℕ) → 0 < max → cat sum_read 32 max sum 0 [] ≡ some (sum_text sum, sum)
unfolding sum_read
cat-sum sum max m =
    let h = length-sum_text sum in
    cat-IsReadOf sum_read (sum_text sum) max sum sum
      (read_device-IsReadOf sum_text (λ s. s) max sum (omega (arith, h))) 32 0 [] m (omega arith)
      (omega (arith, h))

cat-value :
    (read : SimpleRead) (task : Task) (value max : ℕ)
    → IsSimpleRead read
    → 0 < max
    → cat (value_read read task) 128 max value 0 [] ≡ some (value_text task value, value)
unfolding value_read
cat-value read task value max k m =
    let h = length-value_text task value in
    cat-IsReadOf (value_read read task) (value_text task value) max value value
      (simple_answer-IsReadOf read (value_text task) max value k) 128 0 [] m (omega arith)
      (omega (arith, h))

-- After any sequence of writes, refused ones included, a caller that reads
-- solutions/tp-II-03-proc-sum.c's file to its end gets the first number plus all that were
-- accepted, modulo 2^32, and one that reads example-II-06.c's file gets the last number accepted. A
-- write is accepted when it has fewer than 128 bytes, they can be copied, and `sscanf` finds a
-- number in them.
pub cat-writes :
    (sscanf : List ℕ → Option ℕ) (read : SimpleRead) (task : Task) (ws : List Write)
    (sum value max : ℕ)
    → IsSimpleRead read
    → sum < 2 ^ 32
    → 0 < max
    → (let s = (sum + total sscanf ws) % 2 ^ 32 in
        cat sum_read 32 max (run_sum sscanf ws sum) 0 [] ≡ some (sum_text s, s))
      × (let v = last sscanf ws value in
          cat (value_read read task) 128 max (run_value sscanf ws value) 0 []
          ≡ some (value_text task v, v))
cat-writes sscanf read task ws sum value max k h m = (
  ap (λ s. cat sum_read 32 max s 0 []) (run_sum-total sscanf ws sum h)
      ∙ cat-sum ((sum + total sscanf ws) % 2 ^ 32) max m,
  ap (λ v. cat (value_read read task) 128 max v 0 []) (run_value-last sscanf ws value)
      ∙ cat-value read task (last sscanf ws value) max k m,
)
