-- ===== src/Text/Pieces.antt =====
-- The piece of the text that one read system call copies.
use ild.Base.{
  ℕ, ◌+◌, ◌-◌, ◌^◌, ◌≤◌, ◌<◌, ◌≡◌, List, [], pos, neg, ltb, leb, ◌==◌, if◌then◌else◌, length, take,
  drop, i32-sub_u64, arith,
}
use ild.Kernel.Errno.{efault}
use ild.Kernel.Copy.{reply, out_of_bounds}
use ild.Text.{eof, got, read_text}

-- Up to an offset of 2^31 a read of a text of fewer than 2^31 bytes meets the end of the text
-- exactly at or past it, copies no byte from outside the text, and otherwise copies as much of the
-- rest as the caller has room for, or fails with -EFAULT and moves nothing.
pub read_text_lem :
    (text : List ℕ) (max offset left : ℕ)
    → length text < 2 ^ 31
    → offset ≤ 2 ^ 31
    → read_text text max offset left ≡ (
        if leb (length text) offset
        then eof
        else (let count = if ltb max (length text - offset) then max else length text - offset in
            if left == 0
            then got (reply (pos count) (take count (drop offset text))) (offset + count)
            else got (reply (neg efault) []) offset))
unfolding read_text
read_text_lem text max offset left h k = rw (i32-sub_u64 (length text) offset h k) (ground arith)

-- An offset that is 2^32 past a place in a text of fewer than 2^31 bytes is taken for that place,
-- and a read with any room copies from far outside the buffer.
pub read_text_overrun :
    (text : List ℕ) (max k left : ℕ)
    → length text < 2 ^ 31
    → k < length text
    → 0 < max
    → read_text text max (2 ^ 32 + k) left ≡ got out_of_bounds (2 ^ 32 + k)
unfolding read_text
read_text_overrun text max k left h p m = ground arith

-- Up to an offset of 2^31 a read of a text of fewer than 2^31 bytes meets the end of the text
-- exactly at or past it, copies no byte from outside the text, and otherwise copies as much of the
-- rest as the caller has room for, or fails with -EFAULT and moves nothing. An offset that is 2^32
-- past a place in the text is taken for that place, and a read with any room copies from far
-- outside the buffer.
pub read_text_cases :
    (text : List ℕ) (max offset k left : ℕ)
    → length text < 2 ^ 31
    → offset ≤ 2 ^ 31
    → k < length text
    → 0 < max
    → (read_text text max offset left ≡ (
        if leb (length text) offset
        then eof
        else (let count = if ltb max (length text - offset) then max else length text - offset in
            if left == 0
            then got (reply (pos count) (take count (drop offset text))) (offset + count)
            else got (reply (neg efault) []) offset)))
      × (read_text text max (2 ^ 32 + k) left ≡ got out_of_bounds (2 ^ 32 + k))
read_text_cases text max offset k left h o p m =
    (read_text_lem text max offset left h o, read_text_overrun text max k left h p m)
