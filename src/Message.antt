-- ===== src/Message.antt =====
-- The message queue of solutions/tp-V-01-message-read-write.c, tp-V-02-message-mutex.c,
-- tp-V-03-blocking-read.c and tp-V-04-blocking-write.c: the table and what its methods do with it
-- once they may.
pub mod Load
pub mod Plain
pub mod Mutex
pub mod Blocking
pub mod Rows
pub mod Valid
pub mod Ready
pub mod Content
pub mod Overlap
pub mod System
pub mod Uses
pub mod Texts
pub mod Fifo
pub mod Delivery
mod Kept
pub mod Waiting
pub mod Waits
mod Waited
mod Tests
use ild.Base.{
  ℕ, ◌+◌, ◌-◌, ◌*◌, ℤ, pos, neg, pos_part, i64, sub_u64, Bool, true, false, List, [], ◌∷◌, ◌++◌,
  ltb, leb, ◌==◌, not, if◌then◌else◌, length, get_or, set, take, drop,
}
use ild.Kernel.Errno.{efault, einval}
use ild.Kernel.Copy.{reply, out_of_bounds, from_user, overwrite}
use ild.Counter.{c_string}
use ild.Text.{Answer}

abbrev pub msg_nb_max : ℕ
msg_nb_max = 16

abbrev pub msg_lg_max : ℕ
msg_lg_max = 32

-- `rows` is `messages_array`, `locked` the mutex, and the last two fields count the calls of
-- `wake_up_interruptible` on each wait queue.
pub record Messages : Type 0 where
  pub rows : List (List ℕ)
  pub count : ℕ
  pub locked : Bool
  pub read_wakeups : ℕ
  pub write_wakeups : ℕ

-- The bytes of the array, one row after the other.
abbrev pub flat : List (List ℕ) → List ℕ
flat [] = []
flat (row ∷ rows) = row ++ flat rows

abbrev pub strlen : List ℕ → ℕ
strlen bytes = length (c_string bytes)

unfoldable pub remove_first : Messages → Messages
remove_first s =
    let count = s.count - 1 in
    record s {
      rows = if ltb 0 count then take count (drop 1 s.rows) ++ drop count s.rows else s.rows;
      count = count;
    }

-- What is left of the first message for a reader at `offset`.
abbrev pub remaining : Messages → ℕ → ℕ
remaining s offset = pos_part (i64 (sub_u64 (strlen (flat s.rows)) offset))

-- The copy of a piece: `messages_array[*offset]` is the row of that number.
unfoldable pub copy_piece : ℕ → ℕ → ℕ → Messages → Answer Messages
copy_piece size left offset s =
    let start = msg_lg_max * offset in
    let count = if ltb size (remaining s offset) then size else remaining s offset in
    if ltb (length (flat s.rows)) (start + count)
    then record { reply = out_of_bounds; state = s; offset = offset }
    else (if not (left == 0)
        then record { reply = reply (neg efault) []; state = s; offset = offset }
        else record {
          reply = reply (pos count) (take count (drop start (flat s.rows)));
          state = s;
          offset = offset + count;
        })

-- The write into the row after the last message, with the tests that all the versions make.
unfoldable pub write_last : List ℕ → ℕ → ℕ → Messages → ℤ × Messages
write_last u_buffer size left s =
    let row = overwrite (from_user u_buffer size left) (get_or s.rows s.count []) in
    let s₁ = record s { rows = set s.rows s.count row } in
    if leb msg_lg_max size
    then (neg einval, s)
    else (if not (left == 0)
        then (neg efault, s₁)
        else (pos size, record s₁ { count = s.count + 1 }))
