-- ===== src/Ticks/Queue.antt =====
-- What the tick devices promise: a queue of at most 1024 values, oldest first, which drops what
-- arrives when it is full.
use ild.Base.{ℕ, ◌+◌, pos, neg, Bool, List, [], ◌∷◌, ◌++◌, ltb, if◌then◌else◌, length}
use ild.Kernel.Errno.{enomem, eagain, erestartsys}
use ild.Kernel.Copy.{Reply, reply}
use ild.Ticks.{example_array_size, k_buffer, send_line, Action, tick, taken, Wake, signal, woken}

abbrev pub Queue : Type 0
Queue = List ℕ

abbrev pub push : ℕ → Queue → Queue
push x q = if ltb (length q) example_array_size then q ++ x ∷ [] else q

abbrev pub tail : Queue → Queue
tail [] = []
tail (x ∷ q) = q

abbrev pub act : Action → Queue → Queue
act (tick jiffies) q = push jiffies q
act taken q = tail q

abbrev pub act_all : List Action → Queue → Queue
act_all [] q = q
act_all (a ∷ as_) q = act_all as_ (act a q)

pub data Outcome : Type 0 where
  returned : Reply → Queue → Outcome
  asleep : Queue → Outcome

abbrev pub finish : Reply × Queue → Outcome
finish (r, q) = returned r q

-- Serve the first value, or do as `idle` says.
abbrev pub serve : (ℕ → Queue → Reply × Queue) → Outcome → Queue → Outcome
serve answer idle [] = idle
serve answer idle (x ∷ q) = finish (answer x q)

-- A read waits while the queue is empty, wakes as told, and serves the first value.
unfoldable pub read : (ℕ → Queue → Reply × Queue) → Bool → List Wake → Queue → Outcome
read answer nonblock [] q =
    serve answer (if nonblock then returned (reply (neg eagain) []) [] else asleep []) q
read answer nonblock (signal ∷ ws) q =
    serve answer
      (if nonblock
        then returned (reply (neg eagain) []) []
        else returned (reply (neg erestartsys) []) [])
      q
read answer nonblock (woken actions ∷ ws) q =
    let rest = read answer nonblock ws (act_all actions []) in
    serve answer (if nonblock then returned (reply (neg eagain) []) [] else rest) q

-- The answer of a device that removes the value before it looks at the caller's buffer.
abbrev pub take_first : ℕ → ℕ → ℕ → Queue → Reply × Queue
take_first size left x q = (send_line x size left, q)

-- The answer of a device that keeps the value if the caller's buffer is too small.
abbrev pub keep_unless_fits : ℕ → ℕ → ℕ → Queue → Reply × Queue
keep_unless_fits size left x q =
    if ltb size (length (k_buffer x) + 1)
    then (reply (neg enomem) [], x ∷ q)
    else (send_line x size left, q)

-- An interrupt, or a read that never waits, with the size of the caller's buffer and the bytes that
-- the copy to it leaves out.
pub data Call : Type 0 where
  interrupt : ℕ → Call
  poll : ℕ → ℕ → Call

-- The values that the reads remove, and those that the interrupts get in.
abbrev pub served : List Call → Queue → List ℕ
served [] q = []
served (interrupt j ∷ cs) q = served cs (push j q)
served (poll size left ∷ cs) [] = served cs []
served (poll size left ∷ cs) (x ∷ q) = x ∷ served cs q

abbrev pub accepted : List Call → Queue → List ℕ
accepted [] q = []
accepted (interrupt j ∷ cs) q =
    let rest = accepted cs (push j q) in
    if ltb (length q) example_array_size then j ∷ rest else rest
accepted (poll size left ∷ cs) q = accepted cs (tail q)

-- What the reads answer: nothing while the queue is empty, and otherwise its first value.
abbrev pub answers : List Call → Queue → List Reply
answers [] q = []
answers (interrupt j ∷ cs) q = answers cs (push j q)
answers (poll size left ∷ cs) [] = reply (pos 0) [] ∷ answers cs []
answers (poll size left ∷ cs) (x ∷ q) = send_line x size left ∷ answers cs q

-- The queue that the calls leave.
abbrev pub final : List Call → Queue → Queue
final [] q = q
final (interrupt j ∷ cs) q = final cs (push j q)
final (poll size left ∷ cs) q = final cs (tail q)
