-- ===== src/Message/Waiting.antt =====
-- What the queue of texts promises to the processes that wait in tp-V-03-blocking-read.c and
-- tp-V-04-blocking-write.c.
use ild.Base.{
  ℕ, ◌≤◌, ◌≡◌, ℤ, pos, neg, Bool, List, [], ◌∷◌, ◌++◌, map, leb, ◌==◌, if◌then◌else◌, length, drop,
}
use ild.Kernel.Errno.{erestartsys, enomem}
use ild.Kernel.Copy.{reply}
use ild.Counter.{c_string}
use ild.Message.{Messages, msg_nb_max}
use ild.Message.Blocking
use ild.Message.Blocking.{Action, Wake, Got, Outcome}
use ild.Message.Uses.{Texts, ended, texts}

-- What another process does while the mutex is free: it writes a text with its NUL, or removes the
-- first message.
pub data Other : Type 0 where
  sent : List ℕ → Other
  removed : Other

abbrev pub to_action : Other → Action
to_action (sent u) = Blocking.wrote (ended u) (length (ended u)) 0
to_action removed = Blocking.removed

-- The ways in which a wait ends.
pub data Waking : Type 0 where
  signal : Waking
  relock_signal : List Other → Waking
  woken : List Other → Waking

abbrev pub to_wake : Waking → Wake
to_wake signal = Blocking.signal
to_wake (relock_signal others) = Blocking.relock_signal (map to_action others)
to_wake (woken others) = Blocking.woken (map to_action others)

abbrev pub wakes : List Waking → List Wake
wakes ws = map to_wake ws

-- Texts of at most 30 bytes without a NUL.
abbrev pub Short : List ℕ → Type 0
Short u = (c_string u ≡ u) × (length u ≤ 30)

abbrev pub AllShort : List Other → Type 0
AllShort [] = Unit {0}
AllShort (sent u ∷ others) = Short u × AllShort others
AllShort (removed ∷ others) = AllShort others

abbrev pub EachShort : List Waking → Type 0
EachShort [] = Unit {0}
EachShort (signal ∷ ws) = EachShort ws
EachShort (relock_signal others ∷ ws) = AllShort others × EachShort ws
EachShort (woken others ∷ ws) = AllShort others × EachShort ws

-- The same on the queue.
abbrev pub other_act : Other → Texts → Texts
other_act (sent u) q = if leb msg_nb_max (length q) then q else q ++ u ∷ []
other_act removed q = drop 1 q

abbrev pub others_act : List Other → Texts → Texts
others_act [] q = q
others_act (o ∷ others) q = others_act others (other_act o q)

pub data Ending (R : Type 0) : Type 0 where
  returned : R → Texts → Ending R
  asleep : Texts → Ending R

-- A wait until the queue is no longer busy, with what follows.
abbrev pub queue_wait :
    {R : Type 0} → (Texts → Bool) → R → (Texts → R × Texts) → List Waking → Texts → Ending R
queue_wait busy restart next [] q =
    if busy q then asleep q else (let (r, left) = next q in returned r left)
queue_wait busy restart next (signal ∷ ws) q =
    if busy q then returned restart q else (let (r, left) = next q in returned r left)
queue_wait busy restart next (relock_signal others ∷ ws) q =
    if busy q
    then returned restart (others_act others q)
    else (let (r, left) = next q in returned r left)
queue_wait busy restart next (woken others ∷ ws) q =
    let rest = queue_wait busy restart next ws (others_act others q) in
    if busy q then rest else (let (r, left) = next q in returned r left)

-- A reader at the start of its file gets the oldest text, and an empty one ends at once and is
-- removed.
abbrev pub take_oldest : Texts → Got × Texts
take_oldest [] = ((reply (pos 0) [], 0), [])
take_oldest (x ∷ q) =
    if length x == 0
    then ((reply (pos 0) [], 0), q)
    else ((reply (pos (length x)) x, length x), x ∷ q)

abbrev pub queue_read : List Waking → Texts → Ending Got
queue_read ws q = queue_wait (λ t. length t == 0) (reply (neg erestartsys) [], 0) take_oldest ws q

abbrev pub push_text : List ℕ → Texts → ℤ × Texts
push_text u q = (pos (length (ended u)), q ++ u ∷ [])

-- A write that does not wait, and one that waits for room.
abbrev pub queue_write : List ℕ → Texts → ℤ × Texts
queue_write u q = if length q == msg_nb_max then (neg enomem, q) else push_text u q

abbrev pub queue_wait_write : List ℕ → List Waking → Texts → Ending ℤ
queue_wait_write u ws q =
    queue_wait (λ t. leb msg_nb_max (length t)) (neg erestartsys) (push_text u) ws q

-- A call ends as the queue says, with the texts of the table as the queue that is left.
abbrev pub Agrees : {R : Type 0} → R × Messages → R × Texts → Type 0
Agrees (r, s) (expected, q) = (r ≡ expected) × (texts s ≡ q)

abbrev pub Matches : {R : Type 0} → Outcome R → Ending R → Type 0
Matches (Blocking.returned r s) (returned expected q) = (r ≡ expected) × (texts s ≡ q)
Matches (Blocking.returned r s) (asleep q) = ⊥
Matches (Blocking.asleep s) (returned expected q) = ⊥
Matches (Blocking.asleep s) (asleep q) = texts s ≡ q
