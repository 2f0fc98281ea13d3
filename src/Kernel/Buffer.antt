-- ===== src/Kernel/Buffer.antt =====
-- The kernel's `simple_read_from_buffer`, which the code calls: a parameter of the drivers, with
-- what they rely on.
use ild.Base.{
  ℕ, ◌+◌, ◌-◌, ◌≤◌, ◌<◌, ◌≡◌, List, [], pos, neg, ltb, leb, ◌==◌, if◌then◌else◌, arith, length,
  take, drop,
}
use ild.Kernel.Errno.{efault}
use ild.Kernel.Copy.{Reply, reply}

-- From the text, the caller's room, the offset and the number of bytes that cannot be copied: what
-- the call answers, and the new offset.
abbrev pub SimpleRead : Type 0
SimpleRead = List ℕ → ℕ → ℕ → ℕ → Reply × ℕ

-- How many bytes a read copies.
abbrev pub piece : ℕ → ℕ → ℕ
piece max rest = if ltb max rest then max else rest

-- At the end of the text it returns 0; before it, it copies what the caller has room for and moves
-- the offset, when every byte can be copied.
pub record IsSimpleRead (read : SimpleRead) : Type 0 where
  pub at_end :
      (text : List ℕ) (max offset left : ℕ)
      → length text ≤ offset
      → read text max offset left ≡ (reply (pos 0) [], offset)
  pub before_end :
      (text : List ℕ) (max offset : ℕ)
      → offset < length text
      → let count = piece max (length text - offset) in
        read text max offset 0 ≡ (reply (pos count) (take count (drop offset text)), offset + count)

-- A function that behaves so.
unfoldable pub reference_read : SimpleRead
reference_read text max offset left =
    let count = piece max (length text - offset) in
    if leb (length text) offset
    then (reply (pos 0) [], offset)
    else (if left == 0
        then (reply (pos count) (take count (drop offset text)), offset + count)
        else (reply (neg efault) [], offset))

pub reference_read-IsSimpleRead : IsSimpleRead reference_read
unfolding reference_read
reference_read-IsSimpleRead = record {
  at_end = λ text max offset left h. ground arith;
  before_end = λ text max offset h. ground arith;
}
