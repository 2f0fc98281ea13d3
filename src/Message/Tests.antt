-- ===== src/Message/Tests.antt =====
-- The message queue at small inputs.
use ild.Base.{true, some, ℕ, ◌≡◌, refl, pos, false, List, [], ◌∷◌, ◌++◌, replicate, arith}
use ild.Kernel.Copy.{reply, out_of_bounds}
use ild.Message.{Messages, write_last, copy_piece}
use ild.Message.Rows.{IsRow}
use ild.Message.Valid.{IsValid}
use ild.Message.Ready.{IsReady}
use ild.Message.System.{
  Call, reading, writing, calls, loaded, mutex_fops, blocking_fops, both_blocking_fops,
  calls-loaded,
}
use ild.Message.Uses.{Use, sends, receives, wrote, got, plain, mutex, use_all, queue_all, AllServe}
use ild.Message.Delivery.{use_all-queue_all}
use ild.Message.Waiting as Waiting
use ild.Message.Waiting.{
  Waking, wakes, queue_read, queue_write, queue_wait_write, Ending, Agrees, Matches,
}
use ild.Message.Waited.{calls-Matches}
use ild.Message.Uses.{texts, reads_on}
use ild.Message.Kept.{reads_on-lost}
use ild.Message.Overlap.{begins, stores, move_all, quiet, writes-overrun}
use ild.Message.Content.{offsets}
use ild.Message.Plain.{messages_read, messages_write}
use ild.Message.Blocking.{
  blocking_write, both_blocking_read, both_blocking_write, Wake, woken, wrote, returned, wait_while,
  read_or_remove, blocking_read,
}

abbrev blank : List ℕ
blank = replicate 32 0

-- Twenty letters in the first row.
abbrev long_row : List ℕ
long_row = replicate 20 65 ++ replicate 12 0

abbrev empty : Messages
empty = record {
  rows = replicate 16 blank;
  count = 0;
  locked = false;
  read_wakeups = 0;
  write_wakeups = 0;
}

abbrev long_message : Messages
long_message = record empty { rows = long_row ∷ replicate 15 blank; count = 1 }

-- The long message has been removed, and its bytes still stand in the row.
abbrev stale : Messages
stale = record long_message { count = 0 }

blank-IsRow : IsRow blank
blank-IsRow = record { size = refl; ended = refl }

long_row-IsRow : IsRow long_row
long_row-IsRow = record { size = refl; ended = refl }

empty-IsValid : IsValid empty
empty-IsValid =
    let b = blank-IsRow in
    record {
      size = refl;
      rows = (b, (b, (b, (b, (b, (b, (b, (b, (b, (b, (b, (b, (b, (b, (b, (b, tt))))))))))))))));
      within = omega arith;
    }

long_message-IsValid : IsValid long_message
long_message-IsValid = record {
  size = refl;
  rows = (long_row-IsRow, empty-IsValid.rows.1);
  within = omega arith;
}

stale-IsValid : IsValid stale
stale-IsValid = record {
  size = refl;
  rows = (long_row-IsRow, empty-IsValid.rows.1);
  within = omega arith;
}

empty-IsReady : IsReady empty
empty-IsReady = record { unlocked = refl; valid = empty-IsValid }

abbrev one_write : List Wake
one_write = woken (wrote (66 ∷ []) 1 0 ∷ []) ∷ []

-- The reader sleeps, another process writes, and the reader gets the byte.
wakes_with_message :
    blocking_read false one_write 8 0 0 empty
    ≡ returned
        (reply (pos 1) (66 ∷ []), 1)
        (record empty { rows = (66 ∷ replicate 31 0) ∷ replicate 15 blank; count = 1 })
unfolding blocking_read wait_while read_or_remove write_last copy_piece
wakes_with_message = refl

-- A write, and then a read that finds the message.
abbrev write_and_read : List Call
write_and_read = writing false [] (66 ∷ []) 1 0 ∷ reading false [] 8 0 0 ∷ []

calls-loaded_example :
    IsReady (calls mutex_fops write_and_read loaded)
    × IsReady (calls blocking_fops write_and_read loaded)
    × IsReady (calls both_blocking_fops write_and_read loaded)
calls-loaded_example = calls-loaded write_and_read

-- A message of two bytes is read with the eighteen letters that it did not cover.
offsets_example :
    ((messages_write (66 ∷ 67 ∷ []) 2 0 stale).0 ≡ pos 2)
    × ((messages_read 32 0 0 (messages_write (66 ∷ 67 ∷ []) 2 0 stale).1).reply
        ≡ reply (pos 20) (66 ∷ 67 ∷ replicate 18 65))
    × ((messages_read 8 0 16 long_message).reply ≡ out_of_bounds)
offsets_example =
    offsets (66 ∷ 67 ∷ []) 8 0 16 stale-IsValid long_message-IsValid refl (omega arith)
      (omega arith) refl refl (omega arith) (omega arith) (omega arith)

-- "A" is stored where the longer text stood before.
abbrev two_texts : List Use
two_texts =
    sends (66 ∷ 67 ∷ 68 ∷ []) ∷ receives 32 ∷ sends (65 ∷ []) ∷ receives 64 ∷ receives 32 ∷ []

learnt_of_two :
    (queue_all two_texts []).0
    ≡ wrote (pos 4)
      ∷ got (some (66 ∷ 67 ∷ 68 ∷ []))
      ∷ wrote (pos 2)
      ∷ got (some (65 ∷ []))
      ∷ got (some [])
      ∷ []
learnt_of_two = refl

use_all-queue_all_example :
    AllServe (use_all plain two_texts loaded) (queue_all two_texts [])
    × AllServe (use_all mutex two_texts loaded) (queue_all two_texts [])
use_all-queue_all_example =
    use_all-queue_all two_texts
      ((refl, omega arith), (omega arith, ((refl, omega arith), (omega arith, (omega arith, tt)))))

-- Another reader takes the text that was written, and then "B" comes.
abbrev late_text : List Waking
late_text =
    Waiting.woken (Waiting.sent (65 ∷ []) ∷ Waiting.removed ∷ [])
    ∷ Waiting.woken (Waiting.sent (66 ∷ []) ∷ [])
    ∷ []

oldest_of_late :
    queue_read late_text [] ≡ Waiting.returned (reply (pos 1) (66 ∷ []), 1) ((66 ∷ []) ∷ [])
oldest_of_late = refl

calls-Matches_example :
    Matches (blocking_read false (wakes late_text) 32 0 0 empty) (queue_read late_text [])
    × Matches (both_blocking_read false (wakes late_text) 32 0 0 empty) (queue_read late_text [])
    × Agrees (blocking_write false (67 ∷ 0 ∷ []) 2 0 empty) (queue_write (67 ∷ []) [])
    × Matches
        (both_blocking_write false (wakes late_text) (67 ∷ 0 ∷ []) 2 0 empty)
        (queue_wait_write (67 ∷ []) late_text [])
calls-Matches_example =
    calls-Matches (67 ∷ []) 32 late_text empty-IsReady (refl, omega arith) (omega arith)
      (((refl, omega arith), tt), (((refl, omega arith), tt), tt))

-- "AB" and "C" are stored, and the second is lost.
abbrev two_stored : Messages
two_stored = record empty {
  rows = (65 ∷ 66 ∷ replicate 30 0) ∷ (67 ∷ replicate 31 0) ∷ replicate 14 blank;
  count = 2;
}

two_stored-IsReady : IsReady two_stored
two_stored-IsReady =
    let first : IsRow (65 ∷ 66 ∷ replicate 30 0) = record { size = refl; ended = refl } in
    let second : IsRow (67 ∷ replicate 31 0) = record { size = refl; ended = refl } in
    record {
      unlocked = refl;
      valid = record {
        size = refl;
        rows = (first, (second, empty-IsValid.rows.1.1));
        within = omega arith;
      };
    }

reads_on-lost_example :
    ((reads_on plain 32 3 two_stored 0).0
      ≡ reply (pos 2) (65 ∷ 66 ∷ []) ∷ reply (pos 0) [] ∷ reply (pos 0) [] ∷ [])
    × (texts (reads_on plain 32 3 two_stored 0).1 ≡ [])
    × (reads_on mutex 32 3 two_stored 0 ≡ reads_on plain 32 3 two_stored 0)
reads_on-lost_example =
    reads_on-lost 32 {x = 65 ∷ 66 ∷ []} {y = 67 ∷ []} {q = []} two_stored-IsReady refl (omega arith)
      (omega arith) (omega arith)

abbrev fifteen : Messages
fifteen = record empty { count = 15 }

writes-overrun_example :
    let one = move_all (begins (66 ∷ []) ∷ stores ∷ []) (quiet fifteen) in
    let two =
      move_all (begins (66 ∷ []) ∷ begins (67 ∷ []) ∷ stores ∷ stores ∷ []) (quiet fifteen) in
    (one.table ≡ (messages_write (66 ∷ []) 1 0 fifteen).1)
    × (one.overrun ≡ false)
    × (two.overrun ≡ true)
    × (two.table.count ≡ 17)
writes-overrun_example =
    writes-overrun (66 ∷ []) (66 ∷ []) (67 ∷ []) fifteen fifteen (omega arith) refl (omega arith)
      (omega arith)
