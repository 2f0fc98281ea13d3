-- ===== src/Fpga/File.antt =====
-- The file operations of example-fpga.c: open, release, read, write, mmap and ioctl.
use ild.Base.{
  ℕ, ◌+◌, ◌-◌, ◌/◌, ◌^◌, ℤ, pos, neg, negsuc, pos_part, i32, sub_u64, is_zero, Bool, true, false,
  List, [], ◌∷◌, ◌++◌, ltb, leb, ◌==◌, ◌||◌, ◌&&◌, not, if◌then◌else◌, length, get_or, set, take,
  drop,
}
use ild.Kernel.Errno.{ebusy, enomem, efault, einval, enotty, eagain}
use ild.Kernel.Copy.{Reply, reply, out_of_bounds, from_user}
use ild.Kernel.Held.{Held, acquire, memory}
use ild.Fpga.{
  Fpga, module_mem_length, module_leds_start, module_switches_start, minor_mem, minor_leds,
  minor_switches,
}

abbrev pub lock : Fpga → Fpga
lock s = record s { locked = true }

abbrev pub unlock : Fpga → Fpga
unlock s = record s { locked = false }

-- `memory 1` is the private structure of an opened file; `kmalloc` tells whether it is allocated.
unfoldable pub example_fpga_open : Bool → ℕ → Fpga → Held → ℤ × Fpga × Held
example_fpga_open kmalloc minor s h =
    let s₁ = lock s in
    if not (get_or s₁.module_open minor 0 == 0)
    then (neg ebusy, unlock s₁, h)
    else (if not kmalloc then (neg enomem, unlock s₁, h) else (
      pos 0,
      unlock (record s₁ {
        module_open = set s₁.module_open minor (get_or s₁.module_open minor 0 + 1);
      }),
      acquire (memory 1) h,
    ))

-- The counter is at least 1 when a file is closed. The private structure is not freed.
unfoldable pub example_fpga_release : ℕ → Fpga → Held → ℤ × Fpga × Held
example_fpga_release minor s h =
    let s₁ = lock s in
    (
      pos 0,
      unlock (record s₁ {
        module_open = set s₁.module_open minor (get_or s₁.module_open minor 0 - 1);
      }),
      h,
    )

-- `length`, as an `int`, of the part that a read or write may touch, before the caller's size.
abbrev pub module_length : ℕ → ℕ → ℤ
module_length minor offset =
    if minor == minor_mem then i32 (sub_u64 module_mem_length offset) else pos 4

-- A negative `length` compares as a huge `size_t`, so that `size` replaces it, cut to an `int`.
abbrev pub clamp_length : ℕ → ℤ → ℤ
clamp_length size (pos length) = if ltb size length then i32 size else pos length
clamp_length size (negsuc n) = if ltb size (2 ^ 64 - 1 - n) then i32 size else negsuc n

-- Where the access starts in the module.
abbrev pub module_start : ℕ → ℕ → ℕ
module_start minor offset = if minor == minor_mem then offset else 0

abbrev pub module_bytes : ℕ → Fpga → List ℕ
module_bytes minor s =
    if minor == minor_mem
    then s.module_mem
    else (if minor == minor_leds then s.module_leds else s.module_switches)

-- The answer and the new offset. The test of `start + count` tells an access outside the mapping.
unfoldable pub example_fpga_read : Bool → ℕ → ℕ → ℕ → ℕ → Fpga → Reply × ℕ
example_fpga_read kmalloc minor size left offset s =
    let count = pos_part (clamp_length size (module_length minor offset)) in
    let start = module_start minor offset in
    let bytes = module_bytes minor s in
    if ltb minor_switches minor
    then (reply (neg einval) [], offset)
    else (if count == 0
        then (reply (pos 0) [], offset)
        else (if not kmalloc
            then (reply (neg enomem) [], offset)
            else (if ltb (length bytes) (start + count)
                then (out_of_bounds, offset)
                else (if not (left == 0)
                    then (reply (neg efault) [], offset)
                    else (reply (pos count) (take count (drop start bytes)), offset + count)))))

-- `iowrite8` of each byte from `start` on.
abbrev pub write_bytes : List ℕ → ℕ → List ℕ → List ℕ
write_bytes bytes start dst = take start dst ++ (bytes ++ drop (start + length bytes) dst)

abbrev pub with_module : ℕ → List ℕ → Fpga → Fpga
with_module minor bytes s =
    if minor == minor_mem then record s { module_mem = bytes } else record s { module_leds = bytes }

unfoldable pub example_fpga_write : Bool → List ℕ → ℕ → ℕ → ℕ → ℕ → Fpga → Reply × ℕ × Fpga
example_fpga_write kmalloc buffer minor size left offset s =
    let count = pos_part (clamp_length size (module_length minor offset)) in
    let start = module_start minor offset in
    let kbuffer = from_user buffer count left in
    if leb minor_switches minor
    then (reply (neg einval) [], offset, s)
    else (if count == 0
        then (reply (pos 0) [], offset, s)
        else (if not kmalloc
            then (reply (neg enomem) [], offset, s)
            else (if not (left == 0)
                then (reply (neg efault) [], offset, s)
                else (if ltb (length (module_bytes minor s)) (start + count)
                    then (out_of_bounds, offset, s)
                    else (
                      reply (pos size) [],
                      offset + count,
                      with_module minor (write_bytes kbuffer start (module_bytes minor s)) s,
                    )))))

-- The page frame and the number of bytes that are mapped, if the kernel can map them.
unfoldable pub example_fpga_mmap : (ℕ → ℕ → ℤ) → ℕ → ℕ → ℕ → ℕ → Fpga → ℤ
example_fpga_mmap io_remap minor page_shift vm_start vm_end s =
    let start =
      s.iobase
      + (if minor == minor_mem
          then 0
          else (if minor == minor_leds then module_leds_start else module_switches_start)) in
    if ltb minor_switches minor
    then neg einval
    else (if not (is_zero (io_remap (start / 2 ^ page_shift) (vm_end - vm_start)))
        then neg eagain
        else pos 0)

-- A command as the macros of <asm/ioctl.h> take it apart; `ioc_read` and `ioc_write` are the bits
-- of its direction.
pub record Command : Type 0 where
  pub ioc_type : ℕ
  pub ioc_nr : ℕ
  pub ioc_read : Bool
  pub ioc_write : Bool

abbrev pub ioctl_magic_number : ℕ
ioctl_magic_number = b'F'

abbrev pub get_enable_irq : ℕ
get_enable_irq = 1

abbrev pub set_enable_irq : ℕ
set_enable_irq = 2

-- `access_ok` tells whether the pointer may be used, and `word` is what `copy_from_user` writes
-- over the flag. A read sends the flag out.
unfoldable pub example_fpga_ioctl : Bool → Command → ℕ → ℕ → Fpga → Reply × Fpga
example_fpga_ioctl access_ok cmd word left s =
    let s₁ = record s { irq_handling = word } in
    if not (cmd.ioc_type == ioctl_magic_number)
    then (reply (neg enotty) [], s)
    else (if (cmd.ioc_read || cmd.ioc_write) && not access_ok
        then (reply (neg efault) [], s)
        else (if cmd.ioc_nr == get_enable_irq
            then (
              (if left == 0 then reply (pos 0) (s.irq_handling ∷ []) else reply (neg efault) []),
              s,
            )
            else (if cmd.ioc_nr == set_enable_irq
                then ((if left == 0 then reply (pos 0) [] else reply (neg efault) []), s₁)
                else (reply (neg enotty) [], s))))
