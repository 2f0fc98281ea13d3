-- ===== src/Message/Waited.antt =====
-- The devices of tp-V-03-blocking-read.c and tp-V-04-blocking-write.c as a queue of texts.
use ild.Base.{
  ℕ, ◌≤◌, ◌<◌, ◌≡◌, refl, ap, ◌∙◌, pos, true, false, List, [], ◌∷◌, leb, ◌==◌, length, drop, arith,
  Bool-cases, inl, inr,
}
use ild.Kernel.Copy.{reply}
use ild.Message.{Messages, remaining, copy_piece, write_last}
use ild.Message.Plain
use ild.Message.Mutex.{unlock_write}
use ild.Message.Blocking.{
  wake_if_written, read_or_remove, read_or_remove_and_wake, blocking_read, blocking_write,
  both_blocking_read, both_blocking_write,
}
use ild.Message.Valid.{IsValid}
use ild.Message.Ready.{IsReady, locks}
use ild.Message.Content.{first_text, remaining_lem}
use ild.Message.Uses.{ended, texts}
use ild.Message.Texts.{length-texts, texts-stored, texts-remove_first}
use ild.Message.Fifo.{write_last-stored, read_text, texts-first}
use ild.Message.Waiting.{
  Waking, wakes, Short, EachShort, take_oldest, queue_read, push_text, queue_write,
  queue_wait_write, Agrees, Matches,
}
use ild.Message.Waits.{length-ended, wait_while-Matches}

copy_text :
    (max : ℕ) {s : Messages}
    → IsValid s
    → (s.count == 0) ≡ false
    → 31 ≤ max
    → (length (first_text s) == 0) ≡ false
    → copy_piece max 0 0 s ≡ record {
      reply = reply (pos (length (first_text s))) (first_text s);
      state = s;
      offset = length (first_text s);
    }
unfolding Plain.messages_read
copy_text max {s} v e h f =
    let more : (remaining s 0 == 0) ≡ false = rw (remaining_lem 0 v (omega arith)) (ground arith) in
    rw (e, more) at (read_text max v e h (ground arith))

readers-Agree :
    (max : ℕ) {s : Messages}
    → IsValid s
    → (s.count == 0) ≡ false
    → 31 ≤ max
    → Agrees (read_or_remove max 0 0 s) (take_oldest (texts s))
      × Agrees (read_or_remove_and_wake max 0 0 s) (take_oldest (texts s))
unfolding read_or_remove read_or_remove_and_wake
readers-Agree max {s} v e h =
    let p : 0 < s.count = ground arith in
    let rest = texts-remove_first v p in
    let first = texts-first v p in
    let x = first_text s in
    let q = drop 1 (texts s) in
    elim (Bool-cases (length x == 0)) [
      | inl f ↦
          let less : (remaining s 0 == 0) ≡ true =
            rw (remaining_lem 0 v (omega arith)) (ground arith) in
          let ends : take_oldest (x ∷ q) ≡ ((reply (pos 0) [], 0), q) = rw f refl in
          rw (less, ap take_oldest first ∙ ends) ((refl, rest), (refl, rest))
      | inr f ↦
          let more : (remaining s 0 == 0) ≡ false =
            rw (remaining_lem 0 v (omega arith)) (ground arith) in
          let gives : take_oldest (x ∷ q) ≡ ((reply (pos (length x)) x, length x), x ∷ q) =
            rw f refl in
          rw (more, copy_text max v e h f, ap take_oldest first ∙ gives)
            ((refl, first), (refl, first))
    ]

writer-Agrees :
    (u : List ℕ) {s : Messages}
    → IsValid s
    → (leb 16 s.count) ≡ false
    → Short u
    → Agrees
        (unlock_write (wake_if_written (write_last (ended u) (length (ended u)) 0 s)))
        (push_text u (texts s))
writer-Agrees u {s} v e (clean, short) =
    rw (write_last-stored (ended u) s (length-ended u short))
      (refl, texts-stored u v (ground arith) clean)

reads-Match :
    (max : ℕ) (ws : List Waking) {s : Messages}
    → IsReady s
    → 31 ≤ max
    → EachShort ws
    → Matches (blocking_read false (wakes ws) max 0 0 s) (queue_read ws (texts s))
      × Matches (both_blocking_read false (wakes ws) max 0 0 s) (queue_read ws (texts s))
unfolding blocking_read both_blocking_read
reads-Match max ws {s} r h short =
    let v = locks r.valid in
    let empty : (t : Messages) → IsValid t → (t.count == 0) ≡ (length (texts t) == 0) =
      λ t w. rw (length-texts w) refl in
    (
      wait_while-Matches _ _ _ _ _ empty (λ t w e. (readers-Agree max w e h).0) ws v short,
      wait_while-Matches _ _ _ _ _ empty (λ t w e. (readers-Agree max w e h).1) ws v short,
    )

writes-Match :
    (u : List ℕ) (ws : List Waking) {s : Messages}
    → IsReady s
    → Short u
    → EachShort ws
    → Agrees (blocking_write false (ended u) (length (ended u)) 0 s) (queue_write u (texts s))
      × Matches
          (both_blocking_write false (wakes ws) (ended u) (length (ended u)) 0 s)
          (queue_wait_write u ws (texts s))
unfolding blocking_write both_blocking_write
writes-Match u ws {s} r fits short =
    let v = locks r.valid in
    (
      elim (Bool-cases (s.count == 16)) [
        | inl e ↦ rw (length-texts r.valid, e) (refl, refl)
        | inr e ↦ rw (length-texts r.valid, e) (writer-Agrees u v (ground (arith, v.within)) fits)
      ],
      wait_while-Matches _ _ _ _ _ (λ t w. rw (length-texts w) refl)
          (λ t w e. writer-Agrees u w e fits) ws v short,
    )

-- From a valid table with a free mutex, a new reader and a writer of a text of at most 30 bytes
-- with its NUL, in tp-V-03-blocking-read.c and tp-V-04-blocking-write.c, with no signal before they
-- have the mutex and no failing copy, end as on a queue of at most 16 texts, however their waits
-- end and whatever such texts others write or remove meanwhile: a reader with room for 31 bytes
-- waits while the queue is empty and then gets the oldest text whole (an empty one ends at once,
-- and is removed); a writer of the first module gets -ENOMEM if the queue is full, a writer of the
-- second waits for room, and the text is then the newest; a signal during a wait gives -ERESTARTSYS
-- and leaves what the others did.
pub calls-Matches :
    (u : List ℕ) (max : ℕ) (ws : List Waking) {s : Messages}
    → IsReady s
    → Short u
    → 31 ≤ max
    → EachShort ws
    → Matches (blocking_read false (wakes ws) max 0 0 s) (queue_read ws (texts s))
      × Matches (both_blocking_read false (wakes ws) max 0 0 s) (queue_read ws (texts s))
      × Agrees (blocking_write false (ended u) (length (ended u)) 0 s) (queue_write u (texts s))
      × Matches
          (both_blocking_write false (wakes ws) (ended u) (length (ended u)) 0 s)
          (queue_wait_write u ws (texts s))
calls-Matches u max ws r fits h short =
    let (first, second) = reads-Match max ws r h short in
    let (third, fourth) = writes-Match u ws r fits short in (first, second, third, fourth)
