-- ===== src/Message/Overlap.antt =====
-- tp-V-01-message-read-write.c has no mutex: writers one step at a time.
use ild.Kernel.Errno.{einval}
use ild.Base.{
  neg, ℕ, ◌+◌, ◌<◌, ◌≡◌, refl, Bool, true, false, ◌||◌, ◌==◌, leb, ◌≤◌, Bool-cases, inl, inr,
  if◌then◌else◌, List, [], ◌∷◌, ◌++◌, length, arith,
}
use ild.Message.{Messages, msg_nb_max, msg_lg_max, write_last}
use ild.Message.Plain.{messages_write}

-- The table, the texts of the writers that have passed the tests, and whether a row outside the
-- array was written.
pub record Shared : Type 0 where
  pub table : Messages
  pub begun : List (List ℕ)
  pub overrun : Bool

-- The two parts of a write of a text whose copy succeeds: the tests of the count and of the length,
-- and, for the writer that passed them first, the copy into the row that the count then names and
-- the new count.
pub data Move : Type 0 where
  begins : List ℕ → Move
  stores : Move

unfoldable pub begin_write : List ℕ → Shared → Shared
begin_write u t =
    if t.table.count == msg_nb_max || leb msg_lg_max (length u)
    then t
    else record t { begun = t.begun ++ u ∷ [] }

unfoldable pub store_write : List (List ℕ) → Shared → Shared
store_write [] t = t
store_write (u ∷ us) t = record {
  table = (write_last u (length u) 0 t.table).1;
  begun = us;
  overrun = t.overrun || leb msg_nb_max t.table.count;
}

abbrev pub move : Move → Shared → Shared
move (begins u) t = begin_write u t
move stores t = store_write t.begun t

abbrev pub move_all : List Move → Shared → Shared
move_all [] t = t
move_all (m ∷ ms) t = move_all ms (move m t)

abbrev pub quiet : Messages → Shared
quiet s = record { table = s; begun = []; overrun = false }

begin-passes :
    (u : List ℕ) (t : Shared)
    → (t.table.count == 16) ≡ false
    → length u < msg_lg_max
    → begin_write u t ≡ record t { begun = t.begun ++ u ∷ [] }
unfolding begin_write
begin-passes u t e h = let short : leb 32 (length u) ≡ false = ground arith in rw (e, short) refl

write_last-count :
    (u : List ℕ) (s : Messages)
    → length u < msg_lg_max
    → (write_last u (length u) 0 s).1.count ≡ s.count + 1
unfolding write_last
write_last-count u s h = let short : leb 32 (length u) ≡ false = ground arith in rw short refl

both_store :
    (v w : List ℕ) (t : Messages)
    → t.count ≡ 15
    → length v < msg_lg_max
    → length w < msg_lg_max
    → let two = move_all (begins v ∷ begins w ∷ stores ∷ stores ∷ []) (quiet t) in
      (two.overrun ≡ true) × (two.table.count ≡ 17)
unfolding store_write
both_store v w t full a b =
    let room : (t.count == 16) ≡ false = ground arith in
    let first : (write_last v (length v) 0 t).1.count ≡ 16 =
      omega (arith, write_last-count v t a) in
    let past : leb 16 (write_last v (length v) 0 t).1.count ≡ true = ground (arith, first) in
    let inside : leb 16 t.count ≡ false = ground arith in
    let u = (write_last v (length v) 0 t).1 in
    rw
      (begin-passes v (quiet t) room a, begin-passes w (record (quiet t) { begun = v ∷ [] }) room b)
      (rw (inside, past) refl, omega (arith, write_last-count w u b, first))

write_last-long :
    (u : List ℕ) (s : Messages)
    → leb 32 (length u) ≡ true
    → write_last u (length u) 0 s ≡ (neg einval, s)
unfolding write_last
write_last-long u s e = rw e refl

-- A writer that is alone: what the two parts leave is what messages_write leaves.
alone :
    (u : List ℕ) (s : Messages)
    → (move_all (begins u ∷ stores ∷ []) (quiet s)).table ≡ (messages_write u (length u) 0 s).1
unfolding messages_write begin_write store_write
alone u s = elim (Bool-cases (s.count == 16)) [
  | inl e ↦ rw e refl
  | inr e ↦ elim (Bool-cases (leb 32 (length u))) [
    | inl long ↦ rw (e, long, write_last-long u s long) refl
    | inr short ↦ rw (e, short) refl
  ]
]

-- And it stays inside the array.
alone-inside :
    (u : List ℕ) (s : Messages)
    → s.count ≤ msg_nb_max
    → (move_all (begins u ∷ stores ∷ []) (quiet s)).overrun ≡ false
unfolding begin_write store_write
alone-inside u s h = elim (Bool-cases (s.count == 16)) [
  | inl e ↦ rw e refl
  | inr e ↦ elim (Bool-cases (leb 32 (length u))) [
    | inl long ↦ rw (e, long) refl
    | inr short ↦ let inside : leb 16 s.count ≡ false = ground arith in rw (e, short, inside) refl
  ]
]

-- A writer of tp-V-01-message-read-write.c that is alone does what messages_write does as a whole,
-- and stays inside the array. When two writers of fewer than 32 bytes have both passed the tests
-- while the table held fifteen messages, before either has stored its message, the second stores
-- past the end of the array, and the count is then seventeen.
pub writes-overrun :
    (u v w : List ℕ) (s t : Messages)
    → s.count ≤ msg_nb_max
    → t.count ≡ 15
    → length v < msg_lg_max
    → length w < msg_lg_max
    → let one = move_all (begins u ∷ stores ∷ []) (quiet s) in
      let two = move_all (begins v ∷ begins w ∷ stores ∷ stores ∷ []) (quiet t) in
      (one.table ≡ (messages_write u (length u) 0 s).1)
      × (one.overrun ≡ false)
      × (two.overrun ≡ true)
      × (two.table.count ≡ 17)
writes-overrun u v w s t h full a b =
    let (over, count) = both_store v w t full a b in (alone u s, alone-inside u s h, over, count)
