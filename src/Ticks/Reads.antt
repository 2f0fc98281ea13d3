-- ===== src/Ticks/Reads.antt =====
-- What each tick device promises of its read system call, its handler and its poll method.
use ild.Base.{
  ℕ, ◌+◌, ◌<◌, ◌≡◌, ◌↔◌, refl, neg, Bool, true, false, List, [], ◌∷◌, length, ◌==◌, arith, lt→ltb,
  get_or,
}
use ild.Kernel.Errno.{enomem, eagain}
use ild.Kernel.Copy.{Reply, reply}
use ild.Ticks.{
  Ticks, Wake, returned, k_buffer, spin_lock, read_loop, take_value, send_line, push_tick, finish,
  signal, woken, spin_unlock, wake_up,
}
use ild.Ticks.Laws.{IsValid, contents, contents-pop_first, contents-push_tick, push_tick-IsValid}
use ild.Ticks.Refine.{
  Refines, IsReady, relock, loop-Refines, take_value-Answers, check_and_take-Answers,
}
use ild.Ticks.Queue
use ild.Ticks.Queue.{Queue}
use ild.Ticks.Polled
use ild.Ticks.Blocking.{blocking_read, nonblocking_read, blocking_handler, nonblocking_handler}
use ild.Ticks.PerOpen
use ild.Ticks.Select

-- The reads of example-V-08.c, example-V-09.c and example-V-10.c, however they are woken and
-- whatever others do meanwhile, answer as the queue of the stored values does and leave that queue,
-- or are still asleep with it; with O_NONBLOCK they return -EAGAIN where the queue would wait. The
-- read of example-select.c does too, but keeps the value when the caller's buffer is too small for
-- its text. On every way out of the four the spinlock is free and the array valid.
pub reads-Refines :
    (nonblock : Bool) (wakes : List Wake) (size left : ℕ) {s : Ticks}
    → IsValid s
    → Refines
        (blocking_read wakes size left s)
        (Queue.read (Queue.take_first size left) false wakes (contents s))
      × Refines
          (nonblocking_read nonblock wakes size left s)
          (Queue.read (Queue.take_first size left) nonblock wakes (contents s))
      × Refines
          (PerOpen.example_read nonblock wakes size left s)
          (Queue.read (Queue.take_first size left) nonblock wakes (contents s))
      × Refines
          (Select.example_read nonblock wakes size left s)
          (Queue.read (Queue.keep_unless_fits size left) nonblock wakes (contents s))
unfolding blocking_read nonblocking_read PerOpen.example_read Select.example_read
reads-Refines nonblock wakes size left v =
    let refines =
      λ (b : Bool). loop-Refines _ _ (take_value-Answers size left) b wakes (relock true v) in
    let keeps =
      loop-Refines _ _ (check_and_take-Answers size left) nonblock wakes (relock true v) in
    (refines false, refines nonblock, refines nonblock, keeps)

-- What a handler's call must leave: the spinlock free, and the tick pushed on the queue.
pub record Pushes (j : ℕ) (s t : Ticks) : Type 0 where
  pub ready : IsReady t
  pub queue : contents t ≡ Queue.push j (contents s)

pushes :
    (j : ℕ) {s : Ticks}
    → IsValid s
    → Pushes j s (spin_unlock (push_tick j (spin_lock s)))
      × Pushes j s (wake_up (spin_unlock (push_tick j (spin_lock s))))
pushes j v =
    let w = push_tick-IsValid j (relock true v) in
    let q = contents-push_tick j (relock true v) in
    (
      record { ready = record { unlocked = refl; valid = relock false w }; queue = q },
      record {
        ready = record { unlocked = refl; valid = record { size = w.size; within = w.within } };
        queue = q;
      },
    )

-- Every handler pushes the tick on the queue, if there is room, and leaves the spinlock free; those
-- of the devices that wait also wake the readers once.
handler-Pushes :
    (j : ℕ) {s : Ticks}
    → IsValid s
    → Pushes j s (Polled.example_handler j s)
      × Pushes j s (blocking_handler j s)
      × Pushes j s (nonblocking_handler j s)
      × Pushes j s (PerOpen.example_handler j s)
      × Pushes j s (Select.example_handler j s)
      × ((blocking_handler j s).wakeups ≡ s.wakeups + 1)
      × ((nonblocking_handler j s).wakeups ≡ s.wakeups + 1)
      × ((PerOpen.example_handler j s).wakeups ≡ s.wakeups + 1)
      × ((Select.example_handler j s).wakeups ≡ s.wakeups + 1)
unfolding Polled.example_handler blocking_handler nonblocking_handler PerOpen.example_handler
    Select.example_handler push_tick
handler-Pushes j {s} v =
    let p = pushes j v in
    let w : (wake_up (spin_unlock (push_tick j (spin_lock s)))).wakeups ≡ s.wakeups + 1 =
      ground arith in
    (p.0, p.1, p.1, p.1, p.1, w, w, w, w)

-- The poll method agrees with the read.
pub poll_iff_eagain :
    (wakes : List Wake) (size left : ℕ) (s : Ticks)
    → ((Select.example_poll s).0 ≡ 0) ↔ (
        Select.example_read true wakes size left s
        ≡ returned (reply (neg eagain) []) (spin_unlock s))
unfolding Select.example_poll Select.example_read read_loop Select.check_and_take
poll_iff_eagain [] size left s = (λ h. ground arith, λ h. ground arith)
poll_iff_eagain (signal ∷ ws) size left s = (λ h. ground arith, λ h. ground arith)
poll_iff_eagain (woken actions ∷ ws) size left s = (λ h. ground arith, λ h. ground arith)

read_loop_nonempty :
    (f : Ticks → Reply × Ticks) (nonblock : Bool) (wakes : List Wake) (s : Ticks)
    → (s.array_end == 0) ≡ false
    → read_loop f nonblock wakes s ≡ finish (f s)
unfolding read_loop
read_loop_nonempty f nonblock [] s e = rw e
read_loop_nonempty f nonblock (signal ∷ ws) s e = rw e
read_loop_nonempty f nonblock (woken actions ∷ ws) s e = rw e

-- When the caller's buffer is too small for the first value, the read of example-V-07.c returns
-- -ENOMEM and has removed the value all the same; that of example-select.c returns -ENOMEM and
-- keeps it.
pub short_buffer :
    (size left : ℕ) (wakes : List Wake) {s : Ticks}
    → IsValid s
    → (s.array_end == 0) ≡ false
    → size < length (k_buffer (get_or s.array 0 0)) + 1
    → ((Polled.example_read size left s).0 ≡ reply (neg enomem) [])
      × (contents (Polled.example_read size left s).1 ≡ Queue.tail (contents s))
      × (Select.example_read true wakes size left s
          ≡ returned (reply (neg enomem) []) (spin_unlock s))
unfolding Polled.example_read Select.example_read Select.check_and_take take_value send_line
short_buffer size left wakes {s} v e h =
    let small = lt→ltb size (length (k_buffer (get_or s.array 0 0)) + 1) h in
    (
      rw (e, small),
      rw e (contents-pop_first (relock true v)),
      rw (read_loop_nonempty (Select.check_and_take size left) true wakes (spin_lock s) e, small),
    )
