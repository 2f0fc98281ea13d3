-- ===== src/Fpga/Edges.antt =====
-- Reads and writes of the memory module at and past its end.
use ild.Base.{ℕ, ◌+◌, ◌-◌, ◌^◌, ◌≤◌, ◌<◌, ◌≡◌, pos, true, List, [], length, take, drop, min}
use ild.Kernel.Copy.{reply, out_of_bounds}
use ild.Fpga.{Fpga, minor_mem, module_mem_length}
use ild.Fpga.File.{example_fpga_read, example_fpga_write, write_bytes}
use ild.Fpga.Access.{read_mem, read_mem_overrun, write_mem_truncates}

-- A read of the memory module at or before its end copies as much as the caller has room for and
-- the module holds, from the file's offset on, and moves the offset on by as much. At an offset
-- past the end, below 2^31, the length is negative, compares as a huge number, and is replaced by
-- the caller's size: a read of any bytes, fewer than 2^31, goes outside the mapping. A write of
-- more than the rest of the module stores as many bytes as fit, and yet returns the size that the
-- caller gave.
pub mem_edges :
    (size left offset inside far : ℕ) (data_ : List ℕ) (s : Fpga)
    → length s.module_mem ≡ module_mem_length
    → offset ≤ module_mem_length
    → module_mem_length < far
    → far < 2 ^ 31
    → 0 < size
    → size < 2 ^ 31
    → inside < module_mem_length
    → module_mem_length < inside + length data_
    → (let count = min size (module_mem_length - offset) in
        example_fpga_read true minor_mem size 0 offset s
        ≡ (reply (pos count) (take count (drop offset s.module_mem)), offset + count))
      × (example_fpga_read true minor_mem size left far s ≡ (out_of_bounds, far))
      × (let (r, next, s') = example_fpga_write true data_ minor_mem (length data_) 0 inside s in
          (r ≡ reply (pos (length data_)) [])
          × (next ≡ module_mem_length)
          × (s' ≡ record s {
            module_mem = write_bytes (take (module_mem_length - inside) data_) inside s.module_mem;
          }))
mem_edges size left offset inside far data_ s len h k p z q i j = (
  read_mem size offset s len h,
  read_mem_overrun size left far s len k p z q,
  write_mem_truncates data_ inside s len i j,
)
