-- ===== src/Fpga/Access.antt =====
-- What the file operations of example-fpga.c promise.
use ild.Base.{
  set-set, set-get_or, get_or-set, ℕ, ◌+◌, ◌-◌, ◌^◌, ◌≤◌, ◌<◌, ◌≡◌, refl, ap, sym, ◌∙◌, pos, neg,
  pos_part, i32, sub_u64, Bool, true, false, List, [], ◌∷◌, ◌++◌, ltb, ◌==◌, if◌then◌else◌, length,
  get_or, set, take, drop, arith, min, length-take, length-append, length-drop, replicate,
  take-append, drop-append, take_all, take-take-append, bit_xor, ◌%◌, inl, inr, Bool-cases,
}
use native.Mathlib.Nat.{add-zero}
use ild.Kernel.Errno.{ebusy}
use ild.Kernel.Copy.{reply, out_of_bounds, from_user}
use ild.Kernel.Held.{Held, acquire, memory}
use ild.Fpga.{Fpga, module_mem_length, minor_mem}
use ild.Fpga.Pci.{interrupt_handler}
use ild.Fpga.File.{
  Command, ioctl_magic_number, get_enable_irq, set_enable_irq, example_fpga_open,
  example_fpga_release, example_fpga_read, example_fpga_write, example_fpga_ioctl, module_length,
  clamp_length, write_bytes,
}

module _ (minor : ℕ) (s : Fpga) (h : Held) where
  -- A minor that is not open can be opened once: a second opening returns -EBUSY and changes
  -- nothing. Closing it makes it as it was, but the private structure of the file stays allocated.
  pub open_exclusive :
      (kmalloc : Bool)
      → get_or s.module_open minor 0 ≡ 0
      → minor < length s.module_open
      → s.locked ≡ false
      → let opened = (example_fpga_open true minor s h).1 in
        ((example_fpga_open true minor s h).0 ≡ pos 0)
        × (example_fpga_open kmalloc minor opened h ≡ (neg ebusy, opened, h))
        × (example_fpga_release minor opened (example_fpga_open true minor s h).2
            ≡ (pos 0, s, acquire (memory 1) h))
  unfolding example_fpga_open example_fpga_release
  open_exclusive kmalloc closed known free =
      let one : get_or s.module_open minor 0 + 1 ≡ 1 = omega arith in
      let open_now = get_or-set s.module_open minor 1 0 known in
      let p : set (set s.module_open minor 1) minor 0 ≡ s.module_open =
        set-set s.module_open minor 1 0
        ∙ ap (set s.module_open minor) (sym closed)
        ∙ set-get_or s.module_open minor 0 in
      rw (closed, open_now)
        (
          refl,
          refl,
          λ i. (pos 0, record s { module_open = p i; locked = sym free i }, acquire (memory 1) h),
        )

clamp_mem :
    (size offset : ℕ)
    → offset ≤ module_mem_length
    → pos_part (clamp_length size (module_length minor_mem offset))
      ≡ min size (module_mem_length - offset)
clamp_mem size offset h =
    let e : i32 (sub_u64 module_mem_length offset) ≡ pos (module_mem_length - offset) =
      ground arith in
    rw e (ground arith)

-- A read of the memory module at or before its end copies as much as the caller has room for and
-- the module holds, from the file's offset on, and moves the offset on by as much.
pub read_mem :
    (size offset : ℕ) (s : Fpga)
    → length s.module_mem ≡ module_mem_length
    → offset ≤ module_mem_length
    → let count = min size (module_mem_length - offset) in
      example_fpga_read true minor_mem size 0 offset s
      ≡ (reply (pos count) (take count (drop offset s.module_mem)), offset + count)
unfolding example_fpga_read
read_mem size offset s len h =
    let count = min size (module_mem_length - offset) in
    rw (clamp_mem size offset h) (elim (Bool-cases (count == 0)) [
      | inl e ↦ let z : count ≡ 0 = ground arith in rw (z, add-zero)
      | inr e ↦
          let inside : ltb (length s.module_mem) (offset + count) ≡ false = ground arith in
          rw (e, inside)
    ])

-- At an offset past the end of the memory module, below 2^31, the length is negative, compares as a
-- huge number, and is replaced by the caller's size: a read of any bytes, fewer than 2^31, goes
-- outside the mapping.
pub read_mem_overrun :
    (size left offset : ℕ) (s : Fpga)
    → length s.module_mem ≡ module_mem_length
    → module_mem_length < offset
    → offset < 2 ^ 31
    → 0 < size
    → size < 2 ^ 31
    → example_fpga_read true minor_mem size left offset s ≡ (out_of_bounds, offset)
unfolding example_fpga_read
read_mem_overrun size left offset s len h k p q = ground arith

from_user_some : (u : List ℕ) (n : ℕ) → n ≤ length u → from_user u n 0 ≡ take n u
from_user_some u n h =
    let e : n - 0 ≡ n = omega arith in rw e (take-take-append n u (replicate n 0) h)

write_mem :
    (data_ : List ℕ) (offset : ℕ) (s : Fpga)
    → length s.module_mem ≡ module_mem_length
    → 0 < length data_
    → offset < module_mem_length
    → let count = min (length data_) (module_mem_length - offset) in
      example_fpga_write true data_ minor_mem (length data_) 0 offset s ≡ (
        reply (pos (length data_)) [],
        offset + count,
        record s { module_mem = write_bytes (take count data_) offset s.module_mem },
      )
unfolding example_fpga_write
write_mem data_ offset s len p h =
    let count = min (length data_) (module_mem_length - offset) in
    let some_bytes : (count == 0) ≡ false = ground arith in
    let inside : ltb (length s.module_mem) (offset + count) ≡ false = ground arith in
    rw (
      clamp_mem (length data_) offset (omega arith),
      some_bytes,
      inside,
      from_user_some data_ count (omega arith),
    )

pub length-write_bytes :
    (bytes : List ℕ) (start : ℕ) (dst : List ℕ)
    → start + length bytes ≤ length dst
    → length (write_bytes bytes start dst) ≡ length dst
length-write_bytes bytes start dst h = omega (
  arith,
  length-append (take start dst) (bytes ++ drop (start + length bytes) dst),
  length-append bytes (drop (start + length bytes) dst),
  length-take start dst,
  length-drop (start + length bytes) dst,
)

read_back :
    (bytes : List ℕ) (start : ℕ) (dst : List ℕ)
    → start ≤ length dst
    → take (length bytes) (drop start (write_bytes bytes start dst)) ≡ bytes
read_back bytes start dst h =
    let rest = bytes ++ drop (start + length bytes) dst in
    let e : start ≡ length (take start dst) = omega (arith, length-take start dst) in
    let same : drop start (take start dst ++ rest) ≡ rest =
      ap (λ n. drop n (take start dst ++ rest)) e ∙ drop-append (take start dst) rest in
    rw same (take-append bytes (drop (start + length bytes) dst))

-- A write of some bytes that fit inside the memory module is whole, and a read of the same place
-- gives back what it wrote.
pub write_read_mem :
    (data_ : List ℕ) (offset : ℕ) (s : Fpga)
    → length s.module_mem ≡ module_mem_length
    → 0 < length data_
    → offset + length data_ ≤ module_mem_length
    → let (r, next, s') = example_fpga_write true data_ minor_mem (length data_) 0 offset s in
      (r ≡ reply (pos (length data_)) [])
      × (next ≡ offset + length data_)
      × (example_fpga_read true minor_mem (length data_) 0 offset s'
          ≡ (reply (pos (length data_)) data_, next))
write_read_mem data_ offset s len p h =
    let whole : min (length data_) (module_mem_length - offset) ≡ length data_ = omega arith in
    let bytes : take (length data_) data_ ≡ data_ = take_all (length data_) data_ (omega arith) in
    rw (write_mem data_ offset s len p (omega arith), whole, bytes)
      (
        refl,
        refl,
        read_mem (length data_) offset
              (record s { module_mem = write_bytes data_ offset s.module_mem })
              (length-write_bytes data_ offset s.module_mem (omega arith) ∙ len) (omega arith)
            ∙ rw (whole, read_back data_ offset s.module_mem (omega arith)),
      )

-- A write of more than the rest of the memory module stores as many bytes as fit, and yet returns
-- the size that the caller gave.
pub write_mem_truncates :
    (data_ : List ℕ) (offset : ℕ) (s : Fpga)
    → length s.module_mem ≡ module_mem_length
    → offset < module_mem_length
    → module_mem_length < offset + length data_
    → let (r, next, s') = example_fpga_write true data_ minor_mem (length data_) 0 offset s in
      (r ≡ reply (pos (length data_)) [])
      × (next ≡ module_mem_length)
      × (s' ≡ record s {
        module_mem = write_bytes (take (module_mem_length - offset) data_) offset s.module_mem;
      })
write_mem_truncates data_ offset s len p h =
    let short : min (length data_) (module_mem_length - offset) ≡ module_mem_length - offset =
      omega arith in
    let end : offset + (module_mem_length - offset) ≡ module_mem_length = omega arith in
    rw (write_mem data_ offset s len (omega arith) p, short, end) (refl, refl, refl)

-- The flag that the ioctl stores is the one that it sends out, and the one that the interrupt
-- handler obeys: while it is zero no interrupt changes the driver's state, and otherwise an
-- interrupt that the device raised changes the first byte of the leds to the toggled value.
ioctl_flag :
    (set_flag get_flag : Command) (word other status edge : ℕ) (s : Fpga)
    → set_flag.ioc_type ≡ ioctl_magic_number
    → set_flag.ioc_nr ≡ set_enable_irq
    → get_flag.ioc_type ≡ ioctl_magic_number
    → get_flag.ioc_nr ≡ get_enable_irq
    → (status == 0) ≡ false
    → let s' = (example_fpga_ioctl true set_flag word 0 s).1 in
      (example_fpga_ioctl true get_flag other 0 s' ≡ (reply (pos 0) (word ∷ []), s'))
      × ((interrupt_handler status edge s').1 ≡ (
          if word == 0 then s' else record s' {
            value = bit_xor s.value edge;
            module_leds = set s.module_leds 0 (bit_xor s.value edge % 256);
          }))
unfolding example_fpga_ioctl interrupt_handler
ioctl_flag set_flag get_flag word other status edge s a b c d e = ground arith
