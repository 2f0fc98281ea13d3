-- ===== src/Message/System.antt =====
-- The message queue from its loading on, under any sequence of system calls: the tables of methods
-- of tp-V-02-message-mutex.c, tp-V-03-blocking-read.c and tp-V-04-blocking-write.c.
use ild.Base.{ℕ, zero, suc, refl, Bool, false, List, [], ◌∷◌, replicate, arith}
use ild.Message.{Messages, msg_nb_max, msg_lg_max}
use ild.Message.Mutex
use ild.Message.Blocking.{
  Wake, blocking_read, blocking_write, both_blocking_read, both_blocking_write,
}
use ild.Message.Rows.{IsRow, AllRows}
use ild.Message.Ready.{IsReady, state, blocking-IsReady, earlier-IsReady}

-- A system call: whether a signal ends the wait for the mutex, the ways in which its other waits
-- end, and the arguments, with the bytes that a copy leaves out.
pub data Call : Type 0 where
  reading : Bool → List Wake → ℕ → ℕ → ℕ → Call
  writing : Bool → List Wake → List ℕ → ℕ → ℕ → Call

-- The table after a call that each module's `messages_fops` sends to a method; a call that is still
-- asleep leaves the table that it waits at.
unfoldable pub mutex_fops : Call → Messages → Messages
mutex_fops (reading interrupted wakes size left offset) s =
    (Mutex.messages_read interrupted size left offset s).state
mutex_fops (writing interrupted wakes u_buffer size left) s =
    (Mutex.messages_write interrupted u_buffer size left s).1

unfoldable pub blocking_fops : Call → Messages → Messages
blocking_fops (reading interrupted wakes size left offset) s =
    state (blocking_read interrupted wakes size left offset s)
blocking_fops (writing interrupted wakes u_buffer size left) s =
    (blocking_write interrupted u_buffer size left s).1

unfoldable pub both_blocking_fops : Call → Messages → Messages
both_blocking_fops (reading interrupted wakes size left offset) s =
    state (both_blocking_read interrupted wakes size left offset s)
both_blocking_fops (writing interrupted wakes u_buffer size left) s =
    state (both_blocking_write interrupted wakes u_buffer size left s)

-- The statics when the module is loaded.
abbrev pub loaded : Messages
loaded = record {
  rows = replicate msg_nb_max (replicate msg_lg_max 0);
  count = 0;
  locked = false;
  read_wakeups = 0;
  write_wakeups = 0;
}

abbrev pub calls : (Call → Messages → Messages) → List Call → Messages → Messages
calls fops [] s = s
calls fops (c ∷ cs) s = calls fops cs (fops c s)

AllRows-replicate : (n : ℕ) (row : List ℕ) → IsRow row → AllRows (replicate n row)
AllRows-replicate zero row r = tt
AllRows-replicate (suc n) row r = (r, AllRows-replicate n row r)

pub loaded-IsReady : IsReady loaded
loaded-IsReady = record {
  unlocked = refl;
  valid = record {
    size = refl;
    rows =
        AllRows-replicate msg_nb_max (replicate msg_lg_max 0)
          (record { size = refl; ended = refl });
    within = omega arith;
  };
}

mutex_fops-IsReady : (c : Call) {s : Messages} → IsReady s → IsReady (mutex_fops c s)
unfolding mutex_fops
mutex_fops-IsReady (reading interrupted wakes size left offset) r =
    (earlier-IsReady interrupted [] size left offset r).0
mutex_fops-IsReady (writing interrupted wakes u_buffer size left) r =
    (earlier-IsReady interrupted u_buffer size left 0 r).1

blocking_fops-IsReady : (c : Call) {s : Messages} → IsReady s → IsReady (blocking_fops c s)
unfolding blocking_fops
blocking_fops-IsReady (reading interrupted wakes size left offset) r =
    (blocking-IsReady interrupted wakes [] size left offset r).0
blocking_fops-IsReady (writing interrupted wakes u_buffer size left) r =
    (blocking-IsReady interrupted wakes u_buffer size left 0 r).1

both_blocking_fops-IsReady :
    (c : Call) {s : Messages} → IsReady s → IsReady (both_blocking_fops c s)
unfolding both_blocking_fops
both_blocking_fops-IsReady (reading interrupted wakes size left offset) r =
    (blocking-IsReady interrupted wakes [] size left offset r).2
both_blocking_fops-IsReady (writing interrupted wakes u_buffer size left) r =
    (blocking-IsReady interrupted wakes u_buffer size left 0 r).3

-- What the methods keep, a sequence of calls keeps.
calls-IsReady :
    (fops : Call → Messages → Messages)
    → ((c : Call) (s : Messages) → IsReady s → IsReady (fops c s))
    → (cs : List Call) {s : Messages} → IsReady s
    → IsReady (calls fops cs s)
calls-IsReady fops keep [] r = r
calls-IsReady fops keep (c ∷ cs) {s} r = calls-IsReady fops keep cs (keep c s r)

-- From the loading of any of the three modules with a mutex on, whatever calls are made with
-- whatever arguments, whatever signals, failing copies and wake-ups end them, and whatever others
-- do while they wait, the table is sixteen rows of 32 bytes that end in a NUL with at most sixteen
-- messages, and the mutex is free between the calls. A call is taken as a whole but where it waits,
-- since it holds the mutex.
pub calls-loaded :
    (cs : List Call)
    → IsReady (calls mutex_fops cs loaded)
      × IsReady (calls blocking_fops cs loaded)
      × IsReady (calls both_blocking_fops cs loaded)
calls-loaded cs = (
  calls-IsReady mutex_fops (λ c s r. mutex_fops-IsReady c r) cs loaded-IsReady,
  calls-IsReady blocking_fops (λ c s r. blocking_fops-IsReady c r) cs loaded-IsReady,
  calls-IsReady both_blocking_fops (λ c s r. both_blocking_fops-IsReady c r) cs loaded-IsReady,
)
