-- ===== src/Message/Ready.antt =====
-- The methods that take the mutex leave it free and the table valid, on every way out and asleep.
use ild.Base.{
  ℕ, ◌≡◌, refl, ◌∙◌, Bool, true, false, List, [], ◌∷◌, ◌==◌, leb, ℤ, is_neg, Bool-cases, inl, inr,
  arith,
}
use ild.Message.{Messages, msg_nb_max, remove_first, write_last, remaining}
use ild.Message.Valid.{
  IsValid, remove_first-IsValid, write_last-IsValid, copy_piece-state, plain-IsValid,
}
use ild.Message.Mutex
use ild.Message.Plain
use ild.Message.Mutex.{lock, unlock, unlock_write}
use ild.Message.Blocking.{
  Action, wrote, removed, act, act_all, Wake, signal, relock_signal, woken, Outcome, returned,
  asleep, wait_while, wake_if_written, read_or_remove, read_or_remove_and_wake, blocking_read,
  blocking_write, both_blocking_read, both_blocking_write,
}

-- A valid table whose mutex is free.
pub record IsReady (s : Messages) : Type 0 where
  pub unlocked : s.locked ≡ false
  pub valid : IsValid s

-- Validity is about the rows and the count alone.
same_rows :
    {s : Messages} (b : Bool) (r w : ℕ)
    → IsValid s
    → IsValid (record s { locked = b; read_wakeups = r; write_wakeups = w })
same_rows b r w v = record { size = v.size; rows = v.rows; within = v.within }

pub unlocks : {s : Messages} → IsValid s → IsReady (unlock s)
unlocks {s} v = record { unlocked = refl; valid = same_rows false s.read_wakeups s.write_wakeups v }

pub locks : {s : Messages} → IsValid s → IsValid (lock s)
locks {s} v = same_rows true s.read_wakeups s.write_wakeups v

module _ (interrupted : Bool) (u_buffer : List ℕ) (size left offset : ℕ) {s : Messages}
    (r : IsReady s) where
  -- Whatever ends them, the methods of tp-V-02-message-mutex.c return with the mutex free and the
  -- table valid.
  pub mutex-IsReady :
      IsReady (Mutex.messages_read interrupted size left offset s).state
      × IsReady (Mutex.messages_write interrupted u_buffer size left s).1
  unfolding Mutex.messages_read Mutex.messages_write
  mutex-IsReady = (reads interrupted, writes interrupted)
    where
      v : IsValid (lock s)
      v = locks r.valid

      reads : (i : Bool) → IsReady (Mutex.messages_read i size left offset s).state
      reads true = r
      reads false = elim (Bool-cases (s.count == 0)) [
        | inl e ↦ rw e (unlocks v)
        | inr e ↦ rw e (elim (Bool-cases (remaining s offset == 0)) [
          | inl f ↦ rw f (unlocks (remove_first-IsValid v))
          | inr f ↦ rw (f, copy_piece-state size left offset (lock s)) (unlocks v)
        ])
      ]

      writes : (i : Bool) → IsReady (Mutex.messages_write i u_buffer size left s).1
      writes true = r
      writes false = elim (Bool-cases (s.count == msg_nb_max)) [
        | inl e ↦ rw e (unlocks v)
        | inr e ↦
            rw e (unlocks (write_last-IsValid u_buffer size left (ground (arith, v.within)) v))
      ]

act-IsValid : (a : Action) {s : Messages} → IsValid s → IsValid (act a s)
act-IsValid (wrote u_buffer size left) {s} v = elim (Bool-cases (leb msg_nb_max s.count)) [
  | inl e ↦ rw e v
  | inr e ↦ rw e (write_last-IsValid u_buffer size left (ground arith) v)
]
act-IsValid removed {s} v = elim (Bool-cases (s.count == 0)) [
  | inl e ↦ rw e v
  | inr e ↦ rw e (remove_first-IsValid v)
]

act-locked : (a : Action) (s : Messages) → (act a s).locked ≡ s.locked
unfolding write_last remove_first
act-locked (wrote u_buffer size left) s = ground arith
act-locked removed s = ground arith

pub act_all-IsReady : (as_ : List Action) {s : Messages} → IsReady s → IsReady (act_all as_ s)
act_all-IsReady [] r = r
act_all-IsReady (a ∷ as_) {s} r =
    act_all-IsReady as_
      (record { unlocked = act-locked a s ∙ r.unlocked; valid = act-IsValid a r.valid })

abbrev pub state : {R : Type 0} → Outcome R → Messages
state (returned r s) = s
state (asleep s) = s

-- A wait keeps what holds between calls, if what follows it does.
wait_while-IsReady :
    {R : Type 0} (busy : Messages → Bool) (restart : R) (next : Messages → R × Messages)
    → ((s : Messages) → IsValid s → busy s ≡ false → IsReady (next s).1)
    → (ws : List Wake) {s : Messages} → IsValid s
    → IsReady (state (wait_while busy restart next ws s))
unfolding wait_while
wait_while-IsReady busy restart next keep [] {s} v = elim (Bool-cases (busy s)) [
  | inl e ↦ rw e (unlocks v)
  | inr e ↦ rw e (keep s v e)
]
wait_while-IsReady busy restart next keep (signal ∷ ws) {s} v = elim (Bool-cases (busy s)) [
  | inl e ↦ rw e (unlocks v)
  | inr e ↦ rw e (keep s v e)
]
wait_while-IsReady busy restart next keep (relock_signal actions ∷ ws) {s} v =
    elim (Bool-cases (busy s)) [
      | inl e ↦ rw e (act_all-IsReady actions (unlocks v))
      | inr e ↦ rw e (keep s v e)
    ]
wait_while-IsReady busy restart next keep (woken actions ∷ ws) {s} v = elim (Bool-cases (busy s)) [
  | inl e ↦ rw e (
      wait_while-IsReady busy restart next keep ws
        (locks (act_all-IsReady actions (unlocks v)).valid))
  | inr e ↦ rw e (keep s v e)
]

module _ (size left offset : ℕ) (s : Messages) (v : IsValid s) where
  reader-IsReady :
      IsReady (read_or_remove size left offset s).1
      × IsReady (read_or_remove_and_wake size left offset s).1
  unfolding read_or_remove read_or_remove_and_wake
  reader-IsReady = elim (Bool-cases (remaining s offset == 0)) [
    | inl f ↦ rw f (
      unlocks (remove_first-IsValid v),
      record { unlocked = refl; valid = same_rows false _ _ (remove_first-IsValid v) },
    )
    | inr f ↦ rw (f, copy_piece-state size left offset s) (unlocks v, unlocks v)
  ]

wake_if_written-IsReady :
    (r : ℤ × Messages) → IsValid r.1 → IsReady (unlock_write (wake_if_written r)).1
wake_if_written-IsReady (ret, s) v = elim (Bool-cases (is_neg ret)) [
  | inl e ↦ rw e (unlocks v)
  | inr e ↦ rw e (record { unlocked = refl; valid = same_rows false _ _ v })
]

module _ (interrupted : Bool) (wakes : List Wake) (u_buffer : List ℕ) (size left offset : ℕ)
    {s : Messages} (r : IsReady s) where
  -- Whatever wakes or interrupts them and whatever others do meanwhile, the methods of
  -- tp-V-03-blocking-read.c and tp-V-04-blocking-write.c return or sleep with the mutex free and
  -- the table valid.
  pub blocking-IsReady :
      IsReady (state (blocking_read interrupted wakes size left offset s))
      × IsReady (blocking_write interrupted u_buffer size left s).1
      × IsReady (state (both_blocking_read interrupted wakes size left offset s))
      × IsReady (state (both_blocking_write interrupted wakes u_buffer size left s))
  unfolding blocking_read blocking_write both_blocking_read both_blocking_write
  blocking-IsReady =
      (reads interrupted, writes interrupted, both_reads interrupted, both_writes interrupted)
    where
      v : IsValid (lock s)
      v = locks r.valid

      reads : (i : Bool) → IsReady (state (blocking_read i wakes size left offset s))
      reads true = r
      reads false =
          wait_while-IsReady _ _ _ (λ t w e. (reader-IsReady size left offset t w).0) wakes v

      writes : (i : Bool) → IsReady (blocking_write i u_buffer size left s).1
      writes true = r
      writes false = elim (Bool-cases (s.count == msg_nb_max)) [
        | inl e ↦ rw e (unlocks v)
        | inr e ↦ rw e (
            wake_if_written-IsReady (write_last u_buffer size left (lock s))
              (write_last-IsValid u_buffer size left (ground (arith, v.within)) v))
      ]

      both_reads : (i : Bool) → IsReady (state (both_blocking_read i wakes size left offset s))
      both_reads true = r
      both_reads false =
          wait_while-IsReady _ _ _ (λ t w e. (reader-IsReady size left offset t w).1) wakes v

      both_writes : (i : Bool) → IsReady (state (both_blocking_write i wakes u_buffer size left s))
      both_writes true = r
      both_writes false =
          wait_while-IsReady _ _ _
            (λ t w e.
              wake_if_written-IsReady (write_last u_buffer size left t)
                (write_last-IsValid u_buffer size left (ground arith) w))
            wakes v

-- Whatever ends them, the methods of tp-V-02-message-mutex.c return with the mutex free and the
-- table valid, and those of tp-V-01-message-read-write.c, which have no mutex, with the table
-- valid.
pub earlier-IsReady :
    (interrupted : Bool) (u_buffer : List ℕ) (size left offset : ℕ) {s : Messages}
    → IsReady s
    → IsReady (Mutex.messages_read interrupted size left offset s).state
      × IsReady (Mutex.messages_write interrupted u_buffer size left s).1
      × IsValid (Plain.messages_read size left offset s).state
      × IsValid (Plain.messages_write u_buffer size left s).1
earlier-IsReady interrupted u_buffer size left offset r =
    let (a, b) = mutex-IsReady interrupted u_buffer size left offset r in
    let (c, d) = plain-IsValid u_buffer size left offset r.valid in (a, b, c, d)
