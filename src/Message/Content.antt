-- ===== src/Message/Content.antt =====
-- What a reader gets of the messages that were written.
use ild.Base.{
  ℕ, zero, suc, ◌+◌, ◌-◌, ◌≤◌, ◌<◌, ◌≡◌, refl, ap, ◌∙◌, List, [], ◌∷◌, ◌++◌, false, ltb, leb, ◌==◌,
  if◌then◌else◌, pos, i64-sub_u64, length, get_or, set, take, drop, replicate, length-append,
  length-set, take_all, take-append, Bool-cases, inl, inr, arith,
}
use native.Mathlib.Nat.{zero-add}
use ild.Kernel.Copy.{reply, out_of_bounds, from_user, overwrite}
use ild.Counter.{c_string}
use ild.Text.{Answer}
use ild.Message.{Messages, msg_lg_max, flat, strlen, remaining, copy_piece, write_last}
use ild.Message.Rows.{
  AllRows, AllRows-set, length-flat, strlen-flat, overwrite-IsRow, AllRows-get_or,
}
use ild.Message.Valid.{IsValid}
use ild.Message.Plain.{messages_read, messages_write}

-- The text of the first row.
abbrev pub first_text : Messages → List ℕ
first_text s = c_string (get_or s.rows 0 [])

pub flat_text :
    (rows : List (List ℕ))
    → AllRows rows
    → 0 < length rows
    → (c_string (flat rows) ≡ c_string (get_or rows 0 [])) × (strlen (get_or rows 0 []) ≤ 31)
flat_text [] h k = absurd (omega arith)
flat_text (row ∷ rows) h k = strlen-flat row rows h.0

take-c_string : (n : ℕ) (xs : List ℕ) → n ≤ strlen xs → take n xs ≡ take n (c_string xs)
take-c_string zero xs h = refl
take-c_string (suc n) [] h = refl
take-c_string (suc n) (x ∷ xs) h = elim (Bool-cases (x == 0)) [
  | inl e ↦ absurd (ground arith)
  | inr e ↦ rw e (ap (λ r. x ∷ r) (take-c_string n xs (ground arith)))
]

pub remaining_lem :
    {s : Messages} (offset : ℕ)
    → IsValid s
    → offset ≤ 512
    → remaining s offset ≡ length (first_text s) - offset
remaining_lem {s} offset v h =
    let (same, short) = flat_text s.rows v.rows (omega (arith, v.size)) in
    rw same (i64-sub_u64 (length (first_text s)) offset (omega arith) (omega arith))

-- What a new reader gets.
pub read_first_piece :
    (size : ℕ) {s : Messages}
    → IsValid s
    → (s.count == 0) ≡ false
    → 0 < length (first_text s)
    → let count = if ltb size (length (first_text s)) then size else length (first_text s) in
      messages_read size 0 0 s
      ≡ record { reply = reply (pos count) (take count (first_text s)); state = s; offset = count }
unfolding messages_read copy_piece
read_first_piece size {s} v e p =
    let (same, short) = flat_text s.rows v.rows (omega (arith, v.size)) in
    let text = first_text s in
    let count = if ltb size (length text) then size else length text in
    let whole : length text - 0 ≡ length text = omega arith in
    let within : count ≤ strlen (flat s.rows) = rw same (ground arith) in
    let bytes : take count (flat s.rows) ≡ take count text =
      take-c_string count (flat s.rows) within ∙ ap (take count) same in
    let rest : (length text == 0) ≡ false = ground arith in
    let inside : ltb (length (flat s.rows)) (0 + count) ≡ false =
      ground (arith, length-flat s.rows v.rows, v.size, short) in
    rw (e, remaining_lem 0 v (omega arith), whole, rest, inside, zero-add, bytes)

-- A reader whose offset is 16 or more and still within the message reads outside the array: the
-- code takes the offset for a row number.
pub read_overrun :
    (size left offset : ℕ) {s : Messages}
    → IsValid s
    → (s.count == 0) ≡ false
    → 16 ≤ offset
    → offset < length (first_text s)
    → 0 < size
    → (messages_read size left offset s).reply ≡ out_of_bounds
unfolding messages_read copy_piece
read_overrun size left offset {s} v e h k p =
    let (same, short) = flat_text s.rows v.rows (omega (arith, v.size)) in
    rw (e, remaining_lem offset v (omega arith)) (ground (arith, length-flat s.rows v.rows, v.size))

pub c_string-append_text : (u ys : List ℕ) → c_string u ≡ u → c_string (u ++ ys) ≡ u ++ c_string ys
c_string-append_text [] ys h = refl
c_string-append_text (c ∷ u) ys h = elim (Bool-cases (c == 0)) [
  | inl e ↦ absurd (omega (arith, ap length (rw e at h)))
  | inr e ↦ rw e (ap (λ r. c ∷ r) (c_string-append_text u ys (ap (drop 1) (rw e at h))))
]

pub from_user_all : (u : List ℕ) → from_user u (length u) 0 ≡ u
from_user_all u =
    let whole : take (length u - 0) u ≡ u = take_all (length u - 0) u (omega arith) in
    rw whole (take-append u (replicate (length u) 0))

set_first :
    (rows : List (List ℕ)) (row : List ℕ) → 0 < length rows → get_or (set rows 0 row) 0 [] ≡ row
set_first [] row h = absurd (omega arith)
set_first (r ∷ rows) row h = refl

-- The table after a write into it while it is empty.
abbrev stored : List ℕ → Messages → Messages
stored u s = record s { rows = set s.rows 0 (overwrite u (get_or s.rows 0 [])); count = 1 }

write_first :
    (u : List ℕ) (s : Messages)
    → s.count ≡ 0
    → length u < msg_lg_max
    → messages_write u (length u) 0 s ≡ (pos (length u), stored u s)
unfolding messages_write write_last
write_first u s e h =
    let room : (s.count == 16) ≡ false = ground arith in
    let short : leb 32 (length u) ≡ false = ground arith in
    rw (room, short, from_user_all u)
      (ap
        (λ (n : ℕ). (
          pos (length u),
          record s { rows = set s.rows n (overwrite u (get_or s.rows n [])); count = n + 1 },
        ))
        e)

stored-IsValid : (u : List ℕ) {s : Messages} → IsValid s → length u < 32 → IsValid (stored u s)
stored-IsValid u {s} v h =
    let row = get_or s.rows 0 [] in
    let kept = overwrite-IsRow u row h (AllRows-get_or s.rows 0 v.rows (omega (arith, v.size))) in
    record {
      size = length-set s.rows 0 (overwrite u row) ∙ v.size;
      rows = AllRows-set s.rows 0 (overwrite u row) v.rows kept;
      within = omega arith;
    }

first_text-stored :
    (u : List ℕ) {s : Messages}
    → IsValid s
    → c_string u ≡ u
    → first_text (stored u s) ≡ u ++ c_string (drop (length u) (get_or s.rows 0 []))
first_text-stored u {s} v clean =
    ap c_string (set_first s.rows (overwrite u (get_or s.rows 0 [])) (omega (arith, v.size)))
    ∙ c_string-append_text u (drop (length u) (get_or s.rows 0 [])) clean

read_whole :
    {s : Messages} (text : List ℕ)
    → IsValid s
    → (s.count == 0) ≡ false
    → first_text s ≡ text
    → 0 < length text
    → (messages_read msg_lg_max 0 0 s).reply ≡ reply (pos (length text)) text
read_whole {s} text v e same p =
    let short = (flat_text s.rows v.rows (omega (arith, v.size))).1 in
    let room : ltb 32 (length text) ≡ false = rw (← same) (ground arith) in
    ap (λ (a : Answer Messages). a.reply) (read_first_piece msg_lg_max v e (rw same p))
    ∙ rw (same, room, take_all (length text) text (omega arith))

-- Writing a text of 1 to 31 bytes without a NUL into an empty table and reading it back with room
-- enough gives the text followed by whatever the row held after it, up to its next NUL.
pub write_then_read :
    (u : List ℕ) {s : Messages}
    → IsValid s
    → s.count ≡ 0
    → 0 < length u
    → length u < msg_lg_max
    → c_string u ≡ u
    → let text = u ++ c_string (drop (length u) (get_or s.rows 0 [])) in
      ((messages_write u (length u) 0 s).0 ≡ pos (length u))
      × ((messages_read msg_lg_max 0 0 (messages_write u (length u) 0 s).1).reply
          ≡ reply (pos (length text)) text)
write_then_read u {s} v e p h clean =
    let text = u ++ c_string (drop (length u) (get_or s.rows 0 [])) in
    rw (write_first u s e h) (
      refl,
      read_whole text (stored-IsValid u v h) refl (first_text-stored u v clean)
          (omega (arith, length-append u (c_string (drop (length u) (get_or s.rows 0 []))))),
    )

-- Writing a text of 1 to 31 bytes without a NUL into an empty table and reading it back with room
-- enough gives the text followed by whatever the row held after it, up to its next NUL. A reader
-- whose offset is 16 or more and still within the message reads outside the array: the code takes
-- the offset for a row number.
pub offsets :
    (u : List ℕ) (size left offset : ℕ) {s t : Messages}
    → IsValid s
    → IsValid t
    → s.count ≡ 0
    → 0 < length u
    → length u < msg_lg_max
    → c_string u ≡ u
    → (t.count == 0) ≡ false
    → 16 ≤ offset
    → offset < length (first_text t)
    → 0 < size
    → let text = u ++ c_string (drop (length u) (get_or s.rows 0 [])) in
      ((messages_write u (length u) 0 s).0 ≡ pos (length u))
      × ((messages_read msg_lg_max 0 0 (messages_write u (length u) 0 s).1).reply
          ≡ reply (pos (length text)) text)
      × ((messages_read size left offset t).reply ≡ out_of_bounds)
offsets u size left offset v w e p h clean f k l m =
    let (a, b) = write_then_read u v e p h clean in (a, b, read_overrun size left offset w f k l m)
