-- ===== src/Message/Blocking.antt =====
-- solutions/tp-V-03-blocking-read.c, whose readers wait for a message, and
-- solutions/tp-V-04-blocking-write.c, whose writers wait for room too.
use ild.Base.{ℕ, ◌+◌, ℤ, pos, neg, Bool, List, [], ◌∷◌, leb, ◌==◌, if◌then◌else◌, is_neg}
use ild.Kernel.Errno.{enomem, erestartsys}
use ild.Kernel.Copy.{Reply, reply}
use ild.Text.{Answer}
use ild.Message.{Messages, msg_nb_max, remaining, remove_first, copy_piece, write_last}
use ild.Message.Mutex.{lock, unlock, unlock_read, unlock_write}

-- What other processes do while the mutex is free: a write, or the removal of the first message.
pub data Action : Type 0 where
  wrote : List ℕ → ℕ → ℕ → Action
  removed : Action

abbrev pub act : Action → Messages → Messages
act (wrote u_buffer size left) s =
    if leb msg_nb_max s.count then s else (write_last u_buffer size left s).1
act removed s = if s.count == 0 then s else remove_first s

abbrev pub act_all : List Action → Messages → Messages
act_all [] s = s
act_all (a ∷ as_) s = act_all as_ (act a s)

-- How a wait ends: by a signal, by a signal before the mutex is taken again, or by a wake-up after
-- which others may act before it is.
pub data Wake : Type 0 where
  signal : Wake
  relock_signal : List Action → Wake
  woken : List Action → Wake

-- `asleep`: the system call still waits when the given wake-ups are used up.
pub data Outcome (R : Type 0) : Type 0 where
  returned : R → Messages → Outcome R
  asleep : Messages → Outcome R

-- The loop `while (busy)` around a wait, entered with the mutex taken, and the way on.
unfoldable pub wait_while :
    {R : Type 0}
    → (Messages → Bool)
    → R
    → (Messages → R × Messages)
    → List Wake
    → Messages
    → Outcome R
wait_while busy restart next [] s =
    if busy s then asleep (unlock s) else (let (r, t) = next s in returned r t)
wait_while busy restart next (signal ∷ ws) s =
    if busy s then returned restart (unlock s) else (let (r, t) = next s in returned r t)
wait_while busy restart next (relock_signal actions ∷ ws) s =
    if busy s
    then returned restart (act_all actions (unlock s))
    else (let (r, t) = next s in returned r t)
wait_while busy restart next (woken actions ∷ ws) s =
    let rest = wait_while busy restart next ws (lock (act_all actions (unlock s))) in
    if busy s then rest else (let (r, t) = next s in returned r t)

-- A read's answer beside the offset of the file.
abbrev pub Got : Type 0
Got = Reply × ℕ

abbrev pub split : Answer Messages → Got × Messages
split a = ((a.reply, a.offset), a.state)

abbrev pub wake_writers : Messages → Messages
wake_writers s = record s { write_wakeups = s.write_wakeups + 1 }

abbrev pub wake_readers : Messages → Messages
wake_readers s = record s { read_wakeups = s.read_wakeups + 1 }

-- What follows the wait of a reader, in tp-V-03-blocking-read.c and in tp-V-04-blocking-write.c.
unfoldable pub read_or_remove : ℕ → ℕ → ℕ → Messages → Got × Messages
read_or_remove size left offset s =
    if remaining s offset == 0
    then ((reply (pos 0) [], offset), unlock (remove_first s))
    else split (unlock_read (copy_piece size left offset s))

unfoldable pub read_or_remove_and_wake : ℕ → ℕ → ℕ → Messages → Got × Messages
read_or_remove_and_wake size left offset s =
    if remaining s offset == 0
    then ((reply (pos 0) [], offset), unlock (wake_writers (remove_first s)))
    else split (unlock_read (copy_piece size left offset s))

unfoldable pub blocking_read : Bool → List Wake → ℕ → ℕ → ℕ → Messages → Outcome Got
blocking_read interrupted wakes size left offset s =
    let restart : Got = (reply (neg erestartsys) [], offset) in
    if interrupted
    then returned restart s
    else wait_while (λ t. t.count == 0) restart (read_or_remove size left offset) wakes (lock s)

-- A write that wakes the readers if it succeeds; a negative result is an error.
abbrev pub wake_if_written : ℤ × Messages → ℤ × Messages
wake_if_written (ret, s) = (ret, if is_neg ret then s else wake_readers s)

unfoldable pub blocking_write : Bool → List ℕ → ℕ → ℕ → Messages → ℤ × Messages
blocking_write interrupted u_buffer size left s =
    let s₁ = lock s in
    if interrupted
    then (neg erestartsys, s)
    else (if s₁.count == msg_nb_max
        then unlock_write (neg enomem, s₁)
        else unlock_write (wake_if_written (write_last u_buffer size left s₁)))

unfoldable pub both_blocking_read : Bool → List Wake → ℕ → ℕ → ℕ → Messages → Outcome Got
both_blocking_read interrupted wakes size left offset s =
    let restart : Got = (reply (neg erestartsys) [], offset) in
    if interrupted
    then returned restart s
    else wait_while (λ t. t.count == 0) restart (read_or_remove_and_wake size left offset) wakes
        (lock s)

unfoldable pub both_blocking_write : Bool → List Wake → List ℕ → ℕ → ℕ → Messages → Outcome ℤ
both_blocking_write interrupted wakes u_buffer size left s =
    if interrupted
    then returned (neg erestartsys) s
    else wait_while (λ t. leb msg_nb_max t.count) (neg erestartsys)
        (λ t. unlock_write (wake_if_written (write_last u_buffer size left t))) wakes (lock s)
