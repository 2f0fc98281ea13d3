-- ===== src/Fpga/Tests.antt =====
-- The driver of example-fpga.c at small inputs.
use ild.Base.{
  ℕ, ◌≡◌, refl, pos, neg, true, false, List, [], ◌∷◌, ◌==◌, if◌then◌else◌, take, drop, replicate,
  is_zero, arith,
}
use ild.Kernel.Errno.{ebusy, einval, enomem}
use ild.Kernel.Copy.{reply, out_of_bounds}
use ild.Kernel.Held.{Held, acquire, memory, device, msi}
use ild.Fpga.{Fpga, minor_mem}
use ild.Fpga.Pci
use ild.Fpga.Pci.{initialize_pci_device, interrupt_handler}
use ild.Fpga.Device
use ild.Fpga.File.{Command, example_fpga_read, example_fpga_write, example_fpga_mmap, write_bytes}
use ild.Fpga.Access.{write_read_mem}
use ild.Fpga.System.{Call, opened, closed, written, interrupted}
use ild.Fpga.Edges.{mem_edges}
use ild.Fpga.Failures.{probe_outcomes}
use ild.Fpga.Probe.{
  example_fpga_probe, example_fpga_remove, example_fpga_init, example_fpga_exit, probe_unwinds,
}

abbrev board : Fpga
board = record {
  module_mem = replicate 4096 0;
  module_leds = replicate 4 0;
  module_switches = replicate 4 0;
  module_controls = replicate 128 0;
  module_open = replicate 3 0;
  locked = false;
  iobase = 0x80000000;
  msi_enabled = 1;
  irq_handling = 1;
  value = 5;
}

abbrev nothing : Held
nothing = record { resources = []; faults = 0 }

abbrev pci_fine : Pci.Env
pci_fine = record {
  irq_number = 16;
  enable_device = pos 0;
  enable_msi = pos 0;
  request_region = pos 0;
  ioremap = λ n. true;
  request_irq = pos 0;
}

abbrev region_busy : Pci.Env
region_busy = record pci_fine { request_region = neg ebusy }

abbrev char_fine : Device.Env
char_fine = record { alloc_region = pos 0; cdev_add = pos 0 }

abbrev no_region : Device.Env
no_region = record { alloc_region = neg ebusy; cdev_add = pos 0 }

abbrev no_cdev : Device.Env
no_cdev = record { alloc_region = pos 0; cdev_add = neg enomem }

abbrev three_bytes : List ℕ
three_bytes = 1 ∷ 2 ∷ 3 ∷ []

abbrev get_flag : Command
get_flag = record { ioc_type = 70; ioc_nr = 1; ioc_read = true; ioc_write = false }

abbrev set_flag : Command
set_flag = record { ioc_type = 70; ioc_nr = 2; ioc_read = false; ioc_write = true }

-- The leds are one page after the memory, and there is no fourth module.
maps_leds :
    (example_fpga_mmap
        (λ frame size. if frame == 0x80001 then pos 0 else neg einval)
        1
        12
        0
        4096
        board
      ≡ pos 0)
    × (example_fpga_mmap (λ frame size. pos 0) 3 12 0 4096 board ≡ neg einval)
unfolding example_fpga_mmap
maps_leds = (refl, refl)

loads_and_unloads :
    (example_fpga_exit (example_fpga_init true (pos 0) nothing).1 ≡ nothing)
    × (example_fpga_init true (neg ebusy) nothing ≡ (neg ebusy, nothing))
unfolding example_fpga_init example_fpga_exit
loads_and_unloads = (refl, refl)

set_up : (initialize_pci_device pci_fine (acquire (memory 0) nothing)).0.0 ≡ pos 0
unfolding initialize_pci_device
set_up = refl

set_up_fails : is_zero (initialize_pci_device region_busy nothing).0.0 ≡ false
unfolding initialize_pci_device
set_up_fails = refl

write_read_mem_example :
    let (r, next, s') = example_fpga_write true three_bytes minor_mem 3 0 100 board in
    (r ≡ reply (pos 3) [])
    × (next ≡ 103)
    × (example_fpga_read true minor_mem 3 0 100 s' ≡ (reply (pos 3) three_bytes, next))
write_read_mem_example = write_read_mem three_bytes 100 board refl (omega arith) (omega arith)

-- With two devices left.
cdev_fails :
    (example_fpga_probe true pci_fine no_cdev nothing).1.held
    ≡ acquire (device 2) (acquire (device 1) nothing)
cdev_fails = (probe_unwinds pci_fine no_cdev nothing refl refl set_up refl).2

mem_edges_example :
    (example_fpga_read true minor_mem 8 0 4090 board
      ≡ (reply (pos 6) (take 6 (drop 4090 board.module_mem)), 4096))
    × (example_fpga_read true minor_mem 8 0 5000 board ≡ (out_of_bounds, 5000))
    × (let (r, next, s') = example_fpga_write true three_bytes minor_mem 3 0 4095 board in
        (r ≡ reply (pos 3) [])
        × (next ≡ 4096)
        × (s' ≡ record board { module_mem = write_bytes (1 ∷ []) 4095 board.module_mem }))
mem_edges_example =
    mem_edges 8 0 4090 4095 5000 three_bytes board refl (omega arith) (omega arith) (omega arith)
      (omega arith) (omega arith) (omega arith) (omega arith)

probe_outcomes_example :
    (let (err, bound) = example_fpga_probe true pci_fine char_fine nothing in
      (err ≡ pos 0) × (bound.drvdata ≡ true) × (example_fpga_remove pci_fine bound ≡ nothing))
    × (let (err, bound) = example_fpga_probe true pci_fine no_region nothing in
        (bound.drvdata ≡ true) × (err ≡ pos einval) × (bound.held ≡ record nothing { faults = 1 }))
    × ((initialize_pci_device region_busy nothing).0.1 ≡ acquire msi nothing)
probe_outcomes_example =
    probe_outcomes pci_fine region_busy char_fine no_region nothing refl set_up refl refl refl refl
      set_up_fails refl

-- The second opening of the leds is refused, and the third succeeds after the file was closed.
abbrev three_openings : List Call
three_openings =
    opened true 1
    ∷ opened true 1
    ∷ written true three_bytes 0 3 0 4095
    ∷ interrupted 1 3
    ∷ closed 1
    ∷ opened true 1
    ∷ []
