-- ===== src/Ticks/Program.antt =====
-- exemples/05-acces-au-materiel/cat-non-block.c at the device of example-V-09.c: the program reads
-- without waiting, and shows that it waits by characters that turn.
use ild.Base.{
  ℕ, zero, suc, ◌%◌, ◌+◌, pos, negsuc, List, [], ◌∷◌, ◌++◌, map, Option, none, some, true, ◌==◌,
  if◌then◌else◌,
}
use ild.Kernel.Copy.{Reply, reply, out_of_bounds}
use ild.Ticks.{Ticks, Outcome, returned, asleep, k_buffer}
use ild.Ticks.Blocking.{nonblocking_read, nonblocking_handler}
use ild.Ticks.Queue.{Call, interrupt, poll}

-- What a turn of the loop writes: the bytes that were read, or a character of the prompt "|/-\" and
-- a backspace.
pub data Output : Type 0 where
  text : List ℕ → Output
  prompt : ℕ → Output

abbrev pub next_prompt : ℕ → ℕ
next_prompt i = if i + 1 == 4 then 0 else i + 1

-- What is written for a result of the read, and the place in the prompt after it; `none` ends the
-- loop.
unfoldable pub cat_turn : Reply → ℕ → Option (Output × ℕ)
cat_turn (reply (pos n) bytes) i = if n == 0 then none else some (text bytes, i)
cat_turn (reply (negsuc n) bytes) i = some (prompt i, next_prompt i)
cat_turn out_of_bounds i = none

abbrev pub interrupts : List ℕ → Ticks → Ticks
interrupts [] s = s
interrupts (j ∷ js) s = interrupts js (nonblocking_handler j s)

-- What follows the result of the read, where `rest` is the loop from there on.
abbrev pub write_and_go_on :
    (ℕ → Ticks → List Output × Ticks) → Ticks → Option (Output × ℕ) → List Output × Ticks
write_and_go_on rest t none = ([], t)
write_and_go_on rest t (some (out, next)) = (out ∷ (rest next t).0, (rest next t).1)

abbrev pub after_read : (ℕ → Ticks → List Output × Ticks) → ℕ → Outcome → List Output × Ticks
after_read rest i (asleep t) = ([], t)
after_read rest i (returned r t) = write_and_go_on rest t (cat_turn r i)

-- The loop, with the interrupts that come before each read. The read of a file with O_NONBLOCK
-- never sleeps.
unfoldable pub nonblocking_cat : List (List ℕ) → ℕ → Ticks → List Output × Ticks
nonblocking_cat [] i s = ([], s)
nonblocking_cat (js ∷ turns) i s =
    after_read (λ next t. nonblocking_cat turns next t) i
      (nonblocking_read true [] 4096 0 (interrupts js s))

-- The texts and the prompts of what was written, and `n` characters of the prompt in turn from the
-- place `i`.
abbrev pub texts : List Output → List (List ℕ)
texts [] = []
texts (text bytes ∷ outs) = bytes ∷ texts outs
texts (prompt i ∷ outs) = texts outs

abbrev pub prompts : List Output → List ℕ
prompts [] = []
prompts (text bytes ∷ outs) = prompts outs
prompts (prompt i ∷ outs) = i ∷ prompts outs

abbrev pub wheel : ℕ → ℕ → List ℕ
wheel i zero = []
wheel i (suc n) = i % 4 ∷ wheel (i + 1) n

-- The line of a value, and the interrupts and reads of the loop.
abbrev pub line : ℕ → List ℕ
line x = k_buffer x ++ 0 ∷ []

abbrev pub calls : List (List ℕ) → List Call
calls [] = []
calls (js ∷ turns) = map interrupt js ++ poll 4096 0 ∷ calls turns
