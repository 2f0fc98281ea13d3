-- ===== src/Ticks.antt =====
-- The array of jiffies that an interrupt handler fills and a read system call empties, shared by
-- exemples/05-acces-au-materiel/example-V-07.c to example-V-10.c and example-select.c.
pub mod Laws
pub mod Queue
pub mod Polled
pub mod Blocking
pub mod PerOpen
pub mod Select
pub mod Refine
pub mod Reads
pub mod History
pub mod Program
pub mod Turns
pub mod Watch
mod Highest
pub mod Delivered
pub mod Watched
mod Selects
mod Tests
use ild.Base.{
  ℕ, ◌+◌, ◌-◌, Bool, true, false, List, [], ◌∷◌, ◌++◌, ℤ, pos, neg, ltb, ◌==◌, if◌then◌else◌, not,
  length, get_or, set, take, drop,
}
use ild.Kernel.Errno.{enomem, efault, eagain, erestartsys}
use ild.Kernel.Copy.{Reply, reply}
use ild.Kernel.Format.{show_ld, snprintf, newline}

abbrev pub example_array_size : ℕ
example_array_size = 1024

-- The statics of the module, or the `struct example_data` of one opening. `locked` is the spinlock,
-- and `wakeups` counts the calls of `wake_up_interruptible`.
pub record Ticks : Type 0 where
  pub array : List ℕ
  pub array_end : ℕ
  pub locked : Bool
  pub wakeups : ℕ

abbrev pub spin_lock : Ticks → Ticks
spin_lock s = record s { locked = true }

abbrev pub spin_unlock : Ticks → Ticks
spin_unlock s = record s { locked = false }

abbrev pub wake_up : Ticks → Ticks
wake_up s = record s { wakeups = s.wakeups + 1 }

-- `memmove(array, &array[1], n * sizeof(long))`
abbrev pub shift_down : ℕ → List ℕ → List ℕ
shift_down n array = take n (drop 1 array) ++ drop n array

-- The handler's write at the end of the array; `jiffies` is the kernel's clock.
unfoldable pub push_tick : ℕ → Ticks → Ticks
push_tick jiffies s =
    if ltb s.array_end example_array_size
    then record s { array = set s.array s.array_end jiffies; array_end = s.array_end + 1 }
    else s

-- The removal of the first value. The code runs it at `array_end != 0` alone.
unfoldable pub pop_first : Ticks → Ticks
pop_first s =
    let array_end = s.array_end - 1 in
    record s {
      array = if ltb 0 array_end then shift_down array_end s.array else s.array;
      array_end = array_end;
    }

-- The text of a value in the 80 bytes of `k_buffer`.
abbrev pub k_buffer : ℕ → List ℕ
k_buffer value = snprintf 80 (show_ld value ++ newline)

-- The end of the read system call: the text and its NUL, if the caller's buffer has room.
unfoldable pub send_line : ℕ → ℕ → ℕ → Reply
send_line value size left =
    if ltb size (length (k_buffer value) + 1)
    then reply (neg enomem) []
    else (if not (left == 0)
        then reply (neg efault) []
        else reply (pos (length (k_buffer value) + 1)) (k_buffer value ++ 0 ∷ []))

-- The removal, the release of the lock and the answer, in that order: the code after the wait in
-- example-V-07.c to example-V-10.c.
unfoldable pub take_value : ℕ → ℕ → Ticks → Reply × Ticks
take_value size left s =
    let value = get_or s.array 0 0 in (send_line value size left, spin_unlock (pop_first s))

-- What others do while the lock is free: an interrupt, or the removal by another reader.
pub data Action : Type 0 where
  tick : ℕ → Action
  taken : Action

abbrev pub act : Action → Ticks → Ticks
act (tick jiffies) s = wake_up (spin_unlock (push_tick jiffies (spin_lock s)))
act taken s = if s.array_end == 0 then s else spin_unlock (pop_first (spin_lock s))

abbrev pub act_all : List Action → Ticks → Ticks
act_all [] s = s
act_all (a ∷ as_) s = act_all as_ (act a s)

-- How `wait_event_interruptible` ends: by a signal, or by a wake-up after which others may act
-- before the lock is taken again.
pub data Wake : Type 0 where
  signal : Wake
  woken : List Action → Wake

-- `asleep`: the system call still waits when the given wake-ups are used up.
pub data Outcome : Type 0 where
  returned : Reply → Ticks → Outcome
  asleep : Ticks → Outcome

abbrev pub finish : Reply × Ticks → Outcome
finish (r, s) = returned r s

-- The `while (array_end == 0)` loop and what follows it, entered with the lock taken.
unfoldable pub read_loop : (Ticks → Reply × Ticks) → Bool → List Wake → Ticks → Outcome
read_loop take_first nonblock [] s =
    if s.array_end == 0
    then (if nonblock
        then returned (reply (neg eagain) []) (spin_unlock s)
        else asleep (spin_unlock s))
    else finish (take_first s)
read_loop take_first nonblock (signal ∷ ws) s =
    if s.array_end == 0
    then (if nonblock
        then returned (reply (neg eagain) []) (spin_unlock s)
        else returned (reply (neg erestartsys) []) (spin_unlock s))
    else finish (take_first s)
read_loop take_first nonblock (woken actions ∷ ws) s =
    let rest = read_loop take_first nonblock ws (spin_lock (act_all actions (spin_unlock s))) in
    if s.array_end == 0
    then (if nonblock then returned (reply (neg eagain) []) (spin_unlock s) else rest)
    else finish (take_first s)
