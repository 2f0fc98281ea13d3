-- ===== src/Message/Valid.antt =====
-- The table stays sixteen rows that end in a NUL with at most sixteen messages, and the mutex is
-- free whenever a method returns or sleeps.
use ild.Base.{
  ℕ, ◌-◌, ◌≤◌, ◌<◌, ◌≡◌, List, [], ◌++◌, ◌==◌, ltb, leb, length, take, drop, get_or, length-set,
  length-append, length-take, length-drop, Bool-cases, inl, inr, arith, ◌∙◌,
}
use ild.Kernel.Copy.{from_user, overwrite, length-from_user}
use ild.Message.{Messages, msg_nb_max, msg_lg_max, remove_first, copy_piece, write_last, remaining}
use ild.Message.Plain
use ild.Message.Rows.{
  AllRows, AllRows-append, AllRows-take, AllRows-drop, AllRows-set, AllRows-get_or, overwrite-IsRow,
}

pub record IsValid (s : Messages) : Type 0 where
  pub size : length s.rows ≡ msg_nb_max
  pub rows : AllRows s.rows
  pub within : s.count ≤ msg_nb_max

shifted-AllRows :
    (n : ℕ) (rows : List (List ℕ)) → AllRows rows → AllRows (take n (drop 1 rows) ++ drop n rows)
shifted-AllRows n rows h =
    AllRows-append (take n (drop 1 rows)) (drop n rows)
      (AllRows-take n (drop 1 rows) (AllRows-drop 1 rows h)) (AllRows-drop n rows h)

length-shifted :
    (n : ℕ) (rows : List (List ℕ))
    → n < length rows
    → length (take n (drop 1 rows) ++ drop n rows) ≡ length rows
length-shifted n rows h = omega (
  arith,
  length-append (take n (drop 1 rows)) (drop n rows),
  length-take n (drop 1 rows),
  length-drop 1 rows,
  length-drop n rows,
)

pub remove_first-IsValid : {s : Messages} → IsValid s → IsValid (remove_first s)
unfolding remove_first
remove_first-IsValid {s} v = elim (Bool-cases (ltb 0 (s.count - 1))) [
  | inl more ↦ record {
    size = rw more (length-shifted (s.count - 1) s.rows (omega (arith, v.size, v.within)) ∙ v.size);
    rows = rw more (shifted-AllRows (s.count - 1) s.rows v.rows);
    within = omega (arith, v.within);
  }
  | inr last ↦ record {
    size = rw last v.size;
    rows = rw last v.rows;
    within = omega (arith, v.within);
  }
]

-- A write for which there is room, whatever fails.
pub write_last-IsValid :
    (u_buffer : List ℕ) (size left : ℕ) {s : Messages}
    → s.count < msg_nb_max
    → IsValid s
    → IsValid (write_last u_buffer size left s).1
unfolding write_last
write_last-IsValid u_buffer size left {s} room v = elim (Bool-cases (leb msg_lg_max size)) [
  | inl long ↦ rw long v
  | inr short ↦
      let bytes = from_user u_buffer size left in
      let row = overwrite bytes (get_or s.rows s.count []) in
      let row_valid =
        overwrite-IsRow bytes (get_or s.rows s.count [])
          (ground (arith, length-from_user u_buffer size left))
          (AllRows-get_or s.rows s.count v.rows (omega (arith, v.size))) in
      let all = AllRows-set s.rows s.count row v.rows row_valid in
      let size_kept = length-set s.rows s.count row ∙ v.size in
      rw short (elim (Bool-cases (left == 0)) [
        | inl e ↦ rw e (record { size = size_kept; rows = all; within = omega (arith, room) })
        | inr e ↦ rw e (record { size = size_kept; rows = all; within = v.within })
      ])
]

pub copy_piece-state :
    (size left offset : ℕ) (s : Messages) → (copy_piece size left offset s).state ≡ s
unfolding copy_piece
copy_piece-state size left offset s = ground arith

-- The methods of tp-V-01-message-read-write.c keep the table valid, whatever they return.
pub plain-IsValid :
    (u_buffer : List ℕ) (size left offset : ℕ) {s : Messages}
    → IsValid s
    → IsValid (Plain.messages_read size left offset s).state
      × IsValid (Plain.messages_write u_buffer size left s).1
unfolding Plain.messages_read Plain.messages_write
plain-IsValid u_buffer size left offset {s} v = (reads, writes)
  where
    reads : IsValid (Plain.messages_read size left offset s).state
    reads = elim (Bool-cases (s.count == 0)) [
      | inl e ↦ rw e v
      | inr e ↦ rw e (elim (Bool-cases (remaining s offset == 0)) [
        | inl f ↦ rw f (remove_first-IsValid v)
        | inr f ↦ rw (f, copy_piece-state size left offset s) v
      ])
    ]

    writes : IsValid (Plain.messages_write u_buffer size left s).1
    writes = elim (Bool-cases (s.count == msg_nb_max)) [
      | inl e ↦ rw e v
      | inr e ↦ rw e (write_last-IsValid u_buffer size left (ground (arith, v.within)) v)
    ]
