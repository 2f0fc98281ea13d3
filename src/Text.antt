-- ===== src/Text.antt =====
-- A device or a /proc file whose read system call copies a text out in pieces. The code is the same
-- in exemples/02-appels-systeme/example-II-04.c and in solutions/tp-II-02-proc-current-pid.c,
-- tp-II-03-proc-sum.c and tp-IV-01-counter-read.c to tp-IV-04-several-counters.c.
pub mod Pieces
pub mod Cat
use ild.Base.{
  ℕ, zero, suc, ◌+◌, List, [], ◌∷◌, ◌++◌, ℤ, pos, neg, negsuc, pos_part, i32, sub_u64, Bool, true,
  false, ltb, ◌==◌, not, if◌then◌else◌, Option, none, some, length, take, drop,
}
use ild.Kernel.Errno.{efault}
use ild.Kernel.Copy.{Reply, reply, out_of_bounds}

-- The result of the code after `snprintf`: the end of the text, or an answer and the new offset.
pub data Read : Type 0 where
  eof : Read
  got : Reply → ℕ → Read

-- `nb = strlen(text) - *offset` is an `int`, whatever the 64-bit offset is. The test of `offset +
-- nb` is no code: it tells a copy that reads past the text.
unfoldable pub read_text : List ℕ → ℕ → ℕ → ℕ → Read
read_text text max offset left =
    let nb = pos_part (i32 (sub_u64 (length text) offset)) in
    let count = if ltb max nb then max else nb in
    if nb == 0
    then eof
    else (if ltb (length text) (offset + count)
        then got out_of_bounds offset
        else (if not (left == 0)
            then got (reply (neg efault) []) offset
            else got (reply (pos count) (take count (drop offset text))) (offset + count)))

-- What a read system call answers, and the driver's state and the file's offset after it.
pub record Answer (S : Type 0) : Type 0 where
  pub reply : Reply
  pub state : S
  pub offset : ℕ

abbrev pub answer : {S : Type 0} → Read → S → S → ℕ → Answer S
answer eof s ended offset = record { reply = reply (pos 0) []; state = ended; offset = offset }
answer (got r offset') s ended offset = record { reply = r; state = s; offset = offset' }

-- A read system call: the text of the state, and what the end of the text changes.
abbrev pub read_device : {S : Type 0} → (S → List ℕ) → (S → S) → S → ℕ → ℕ → ℕ → Answer S
read_device text end s max offset left =
    answer (read_text (text s) max offset left) s (end s) offset
