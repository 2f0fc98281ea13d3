-- ===== src/Kernel/Copy.antt =====
-- Copies between a kernel buffer and the caller's memory. `left` is the number of bytes that a copy
-- could not make, which `copy_to_user` and `copy_from_user` return.
use ild.Base.{ℕ, ◌-◌, ◌≤◌, arith, length-take, List, ◌++◌, ℤ, length, take, drop, replicate}

-- What a system call gives back: its result and the bytes that it copied out, or an access outside
-- the buffer that it reads or writes.
pub data Reply : Type 0 where
  reply : ℤ → List ℕ → Reply
  out_of_bounds : Reply

-- What `copy_from_user` leaves in `n` bytes of the kernel: the bytes that could be read, padded
-- with zeros.
abbrev pub from_user : List ℕ → ℕ → ℕ → List ℕ
from_user u_buffer n left = take n (take (n - left) u_buffer ++ replicate n 0)

-- `n` bytes overwritten at the start of an array.
abbrev pub overwrite : List ℕ → List ℕ → List ℕ
overwrite bytes dst = bytes ++ drop (length bytes) dst

pub length-from_user : (bytes : List ℕ) (n left : ℕ) → length (from_user bytes n left) ≤ n
length-from_user bytes n left =
    omega (arith, length-take n (take (n - left) bytes ++ replicate n 0))
