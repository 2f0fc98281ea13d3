-- ===== src/Fpga.antt =====
-- The driver of exemples/05-acces-au-materiel/example-fpga.c: its private data, and what its kernel
-- calls return.
pub mod File
pub mod Pci
pub mod Device
pub mod Access
pub mod Probe
mod Edges
mod Failures
pub mod System
mod Sound
mod Tests
use ild.Base.{ℕ, ℤ, Bool, List}

abbrev pub module_mem_length : ℕ
module_mem_length = 0x1000

abbrev pub module_leds_start : ℕ
module_leds_start = 0x1000

abbrev pub module_switches_start : ℕ
module_switches_start = 0x2000

abbrev pub minor_mem : ℕ
minor_mem = 0

abbrev pub minor_leds : ℕ
minor_leds = 1

abbrev pub minor_switches : ℕ
minor_switches = 2

abbrev pub nb_minors : ℕ
nb_minors = 3

-- The four mapped modules as byte arrays, the openings of each minor, and the flags of
-- `struct example_fpga_s`; `value` is the interrupt handler's static variable.
pub record Fpga : Type 0 where
  pub module_mem : List ℕ
  pub module_leds : List ℕ
  pub module_switches : List ℕ
  pub module_controls : List ℕ
  pub module_open : List ℕ
  pub locked : Bool
  pub iobase : ℕ
  pub msi_enabled : ℕ
  pub irq_handling : ℕ
  pub value : ℕ
