-- ===== src/Log.antt =====
-- The log of solutions/tp-III-02-log.c: a table of dated events that writes to a /proc file fill
-- and reads empty.
pub mod Table
pub mod Drain
pub mod Order
mod Tests
use ild.Base.{
  ℕ, ◌+◌, ◌-◌, ℤ, pos, neg, is_zero, Bool, List, [], ◌∷◌, ◌++◌, ltb, leb, ◌==◌, not, if◌then◌else◌,
  get_or, set, take, drop,
}
use ild.Kernel.Errno.{ebusy, enospc}
use ild.Kernel.Held.{Held, acquire, release, proc_entry}
use ild.Kernel.Copy.{Reply, reply}
use ild.Kernel.Format.{show_d, show_ld, snprintf, newline}
use ild.Text.{Read, eof, got, read_text, Answer, answer}

abbrev pub nb_event_max : ℕ
nb_event_max = 64

-- `struct s_timed_event`: the patterns of an `int` and of a 64-bit time.
pub record Event : Type 0 where
  pub data_ : ℕ
  pub time : ℕ

-- `Events` and `Nb_events`.
pub record Log : Type 0 where
  pub events : List Event
  pub nb_events : ℕ

abbrev no_event : Event
no_event = record { data_ = 0; time = 0 }

abbrev pub event_table_empty : Log → Bool
event_table_empty s = s.nb_events == 0

abbrev pub event_table_full : Log → Bool
event_table_full s = leb nb_event_max s.nb_events

-- `time` is what `ktime_get_real_ns` returns.
unfoldable pub add_event_to_table : ℕ → ℕ → Log → ℤ × Log
add_event_to_table data_ time s = if event_table_full s then (neg enospc, s) else (
  pos 0,
  record s {
    events = set s.events s.nb_events (record { data_ = data_; time = time });
    nb_events = s.nb_events + 1;
  },
)

-- The code calls it on a table that is not empty.
unfoldable pub remove_first_event : Log → Log
remove_first_event s =
    let n = s.nb_events - 1 in
    record s {
      events = if not (n == 0) then take n (drop 1 s.events) ++ drop n s.events else s.events;
      nb_events = n;
    }

-- "[%lld] %d\n"
unfoldable pub event_text : Event → List ℕ
event_text e = snprintf 63 (b'[' ∷ show_ld e.time ++ (b']' ∷ b' ' ∷ show_d e.data_ ++ newline))

abbrev pub format_first_event : Log → List ℕ
format_first_event s = event_text (get_or s.events 0 no_event)

-- What follows the end of an event's text, at the offset 0.
abbrev pub next_event : ℕ → ℕ → Log → Answer Log
next_event max left s =
    if event_table_empty s
    then record { reply = reply (pos 0) []; state = s; offset = 0 }
    else answer (read_text (format_first_event s) max 0 left) s s 0

abbrev pub after : Read → ℕ → ℕ → Log → Answer Log
after eof max left s = next_event max left (remove_first_event s)
after (got r offset) max left s = record { reply = r; state = s; offset = offset }

unfoldable pub log_read : Log → ℕ → ℕ → ℕ → Answer Log
log_read s max offset left =
    if event_table_empty s
    then record { reply = reply (pos 0) []; state = s; offset = offset }
    else after (read_text (format_first_event s) max offset left) max left s

-- `kstrtoint_from_user` gives its result, and the value that it stored when that is zero.
unfoldable pub log_write : (List ℕ → ℕ → ℤ × ℕ) → List ℕ → ℕ → ℕ → Log → ℤ × Log
log_write kstrtoint_from_user u_buffer nb time s =
    let parsed = kstrtoint_from_user u_buffer nb in
    let added = add_event_to_table parsed.1 time s in
    if not (is_zero parsed.0)
    then (parsed.0, s)
    else (if not (is_zero added.0) then (neg enospc, added.1) else (pos nb, added.1))

-- `proc_create`: whether the entry is made.
unfoldable pub log_init : Bool → Held → ℤ × Held
log_init proc_create h =
    if not proc_create then (neg ebusy, h) else (pos 0, acquire (proc_entry 0) h)

unfoldable pub log_exit : Held → Held
log_exit h = release (proc_entry 0) h
