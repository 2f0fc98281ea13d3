-- ===== src/Message/Uses.antt =====
-- Programs that write texts with their NUL to the devices of tp-V-01-message-read-write.c and
-- tp-V-02-message-mutex.c and read messages to their end, and the queue of texts that they shall
-- see.
use ild.Kernel.Copy.{Reply}
use ild.Base.{
  zero, suc, ℕ, ◌≤◌, ◌≡◌, ℤ, pos, neg, false, List, [], ◌∷◌, ◌++◌, map, Option, none, some, ◌==◌,
  if◌then◌else◌, length, take,
}
use ild.Kernel.Errno.{enomem}
use ild.Counter.{c_string}
use ild.Text.{Answer}
use ild.Text.Cat.{cat}
use ild.Message.{Messages, msg_nb_max}
use ild.Message.Plain
use ild.Message.Mutex
use ild.Message.Ready.{IsReady}

pub record Methods : Type 0 where
  pub read : Messages → ℕ → ℕ → ℕ → Answer Messages
  pub write : List ℕ → ℕ → ℕ → Messages → ℤ × Messages

abbrev pub plain : Methods
plain = record {
  read = λ s max offset left. Plain.messages_read max left offset s;
  write = λ u_buffer size left s. Plain.messages_write u_buffer size left s;
}

-- No signal ends a wait for the mutex.
abbrev pub mutex : Methods
mutex = record {
  read = λ s max offset left. Mutex.messages_read false max left offset s;
  write = λ u_buffer size left s. Mutex.messages_write false u_buffer size left s;
}

-- A text written, or a message read to its end with a buffer of a size, on a file opened for it
-- alone: its offset starts at 0.
pub data Use : Type 0 where
  sends : List ℕ → Use
  receives : ℕ → Use

-- What a program learns: the result of the write, or the bytes of two reads, of which the second
-- ended the message (`none` if it did not).
pub data Learnt : Type 0 where
  wrote : ℤ → Learnt
  got : Option (List ℕ) → Learnt

-- A text with its NUL.
abbrev pub ended : List ℕ → List ℕ
ended u = u ++ 0 ∷ []

abbrev pub outcome : Messages → Option (List ℕ × Messages) → Learnt × Messages
outcome s none = (got none, s)
outcome s (some (bytes, t)) = (got (some bytes), t)

abbrev pub use_once : Methods → Use → Messages → Learnt × Messages
use_once m (sends u) s = let (r, t) = m.write (ended u) (length (ended u)) 0 s in (wrote r, t)
use_once m (receives max) s = outcome s (cat m.read 2 max s 0 [])

abbrev pub use_all : Methods → List Use → Messages → List Learnt × Messages
use_all m [] s = ([], s)
use_all m (u ∷ us) s =
    let (l, t) = use_once m u s in let (ls, end) = use_all m us t in (l ∷ ls, end)

-- The queue of texts.
abbrev pub Texts : Type 0
Texts = List (List ℕ)

abbrev pub queue_once : Use → Texts → Learnt × Texts
queue_once (sends u) q =
    if length q == msg_nb_max
    then (wrote (neg enomem), q)
    else (wrote (pos (length (ended u))), q ++ u ∷ [])
queue_once (receives max) [] = (got (some []), [])
queue_once (receives max) (x ∷ q) = (got (some x), q)

abbrev pub queue_all : List Use → Texts → List Learnt × Texts
queue_all [] q = ([], q)
queue_all (u ∷ us) q =
    let (l, q') = queue_once u q in let (ls, end) = queue_all us q' in (l ∷ ls, end)

-- The texts in the table.
abbrev pub texts : Messages → Texts
texts s = map (λ row. c_string row) (take s.count s.rows)

-- A text of at most 30 bytes without a NUL, and a buffer with room for every text.
abbrev pub Fits : Use → Type 0
Fits (sends u) = (c_string u ≡ u) × (length u ≤ 30)
Fits (receives max) = 31 ≤ max

abbrev pub AllFit : List Use → Type 0
AllFit [] = Unit {0}
AllFit (u ∷ us) = Fits u × AllFit us

-- A program learns what the queue gives, and leaves the table with the queue that is left, valid
-- and with its mutex free.
pub record Serves (result : Learnt × Messages) (expected : Learnt × Texts) : Type 0 where
  pub learnt : result.0 ≡ expected.0
  pub left : texts result.1 ≡ expected.1
  pub ready : IsReady result.1

-- A run learns what the queue gives, and leaves it.
pub record AllServe (result : List Learnt × Messages) (expected : List Learnt × Texts)
    : Type 0 where
  pub learnt : result.0 ≡ expected.0
  pub left : texts result.1 ≡ expected.1
  pub ready : IsReady result.1

-- A number of reads of one file that stays open, from an offset on.
unfoldable pub reads_on : Methods → ℕ → ℕ → Messages → ℕ → List Reply × Messages
reads_on m max zero s offset = ([], s)
reads_on m max (suc n) s offset =
    let a = m.read s max offset 0 in
    let (replies, last) = reads_on m max n a.state a.offset in (a.reply ∷ replies, last)
