-- ===== src/Entry/Tests.antt =====
-- Entry points that are refused half-way.
use ild.Base.{none, replicate, arith, pos, neg, true, false, some, ◌≡◌, refl, ◌∷◌, []}
use ild.Kernel.Errno.{ebusy, enomem, erestartsys}
use ild.Kernel.Held.{Held, acquire, memory}
use ild.Gpio.{Env}
use ild.Gpio.Balance.{settle, first_error}
use ild.Gpio.Input.{init_input, exit_input}
use ild.Gpio.Toggle
use ild.Gpio.Line.{line_init, line_exit, Tree, fdt_probe, settle_managed}
use ild.Ticks.PerOpen
use ild.Ticks.PerOpen.{allocated}
use ild.Timer.Mapped
use ild.Chardev.Load
use ild.Chardev.Load.{
  region_init, region_exit, cdev_init, cdev_exit, class_init, class_exit, misc_init, misc_exit,
  only_negative, class_created,
}
use ild.Proc.Load.{
  proc_init, proc_exit, sum_init, sum_exit, current_pid_init, current_pid_exit, entry_created,
}
use ild.Net.Load.{
  Env as NetEnv, allocated as device_allocated, found, example_init as net_init,
  example_exit as net_exit,
}
use ild.Net.Bare.{bare_init, bare_exit}
use ild.Net.First.{first_init, first_exit}
use ild.Entry.Hardware.{hardware_settle}
use ild.Entry.Registered.{registrations_settle}
use ild.Entry.Faults.{releases_too_many}
use ild.Entry.Openings.{openings_exclude}
use ild.Fpga.{Fpga}
use ild.Fpga.File.{example_fpga_open, example_fpga_release}
use ild.Usb.{Usb, Channel, example_open, example_release}
use ild.Usb.Idle.{IsIdle}

abbrev nothing : Held
nothing = record { resources = []; faults = 0 }

abbrev irq_taken : Env
irq_taken = record {
  gpio_request = λ n. pos 0;
  direction_input = pos 0;
  direction_output = pos 0;
  request_irq = neg ebusy;
  misc_register = neg ebusy;
}

hardware_settle_example :
    ((init_input irq_taken nothing).0 ≡ first_error (pos 0 ∷ pos 0 ∷ neg ebusy ∷ neg ebusy ∷ []))
    × (settle exit_input (init_input irq_taken nothing) ≡ nothing)
    × ((Toggle.example_init irq_taken nothing).0
        ≡ first_error (pos 0 ∷ pos 0 ∷ pos 0 ∷ pos 0 ∷ neg ebusy ∷ []))
    × (settle Toggle.example_exit (Toggle.example_init irq_taken nothing) ≡ nothing)
    × ((line_init irq_taken nothing).0
        ≡ first_error (pos 0 ∷ pos 0 ∷ pos 0 ∷ pos 0 ∷ neg ebusy ∷ []))
    × (settle line_exit (line_init irq_taken nothing) ≡ nothing)
    × ((PerOpen.example_open irq_taken (some []) nothing).0.0
        ≡ first_error (allocated (some []) ∷ pos 0 ∷ pos 0 ∷ neg ebusy ∷ []))
    × (settle PerOpen.example_release (PerOpen.example_open irq_taken (some []) nothing).0
        ≡ nothing)
    × ((Mapped.example_init true (neg ebusy) nothing).0 ≡ first_error (pos 0 ∷ neg ebusy ∷ []))
    × (settle Mapped.example_exit (Mapped.example_init true (neg ebusy) nothing) ≡ nothing)
hardware_settle_example = hardware_settle irq_taken (some []) true nothing

abbrev no_device : Load.Env
no_device = record {
  alloc_chrdev_region = pos 0;
  class_create = true;
  device_create = false;
  cdev_add = neg ebusy;
  misc_register = pos 0;
}

abbrev second_refused : NetEnv
second_refused = record {
  alloc_0 = true;
  register_0 = pos 0;
  alloc_1 = true;
  register_1 = neg enomem;
}

registrations_settle_example :
    ((region_init no_device nothing).0 ≡ only_negative (pos 0))
    × (settle region_exit (region_init no_device nothing) ≡ nothing)
    × ((cdev_init no_device nothing).0 ≡ first_error (only_negative (pos 0) ∷ neg ebusy ∷ []))
    × (settle cdev_exit (cdev_init no_device nothing) ≡ nothing)
    × ((class_init no_device nothing).0
        ≡ first_error (only_negative (pos 0) ∷ class_created true ∷ neg ebusy ∷ []))
    × (settle class_exit (class_init no_device nothing) ≡ nothing)
    × ((misc_init no_device nothing).0 ≡ first_error (pos 0 ∷ []))
    × (settle misc_exit (misc_init no_device nothing) ≡ nothing)
    × ((proc_init false nothing).0 ≡ entry_created false)
    × (settle proc_exit (proc_init false nothing) ≡ nothing)
    × ((sum_init false nothing).0 ≡ entry_created false)
    × (settle sum_exit (sum_init false nothing) ≡ nothing)
    × ((current_pid_init true false nothing).0
        ≡ first_error (entry_created true ∷ entry_created false ∷ []))
    × (settle current_pid_exit (current_pid_init true false nothing) ≡ nothing)
    × ((bare_init second_refused nothing).0
        ≡ first_error (
            device_allocated true
            ∷ found (pos 0)
            ∷ device_allocated true
            ∷ found (neg enomem)
            ∷ []))
    × (settle bare_exit (bare_init second_refused nothing) ≡ nothing)
    × ((net_init second_refused nothing).0
        ≡ first_error (
            device_allocated true
            ∷ found (pos 0)
            ∷ device_allocated true
            ∷ found (neg enomem)
            ∷ []))
    × (settle net_exit (net_init second_refused nothing) ≡ nothing)
registrations_settle_example = registrations_settle no_device true false second_refused nothing refl

abbrev both_lines : Tree
both_lines = record { has_in = true; has_out = true; misc_register = neg ebusy }

releases_too_many_example :
    (settle_managed (fdt_probe both_lines nothing) ≡ record nothing { faults = 2 })
    × (settle first_exit (first_init true (neg ebusy) nothing) ≡ record nothing { faults = 1 })
releases_too_many_example = releases_too_many both_lines true (neg ebusy) nothing refl refl refl

abbrev board : Fpga
board = record {
  module_mem = replicate 4096 0;
  module_leds = replicate 4 0;
  module_switches = replicate 4 0;
  module_controls = replicate 128 0;
  module_open = replicate 3 0;
  locked = false;
  iobase = 0x80000000;
  msi_enabled = 1;
  irq_handling = 1;
  value = 5;
}

abbrev channel : Channel
channel = record { endpoint = none; urb = true; buffer = none; busy = false; locked = false }

abbrev plugged : Usb
plugged = record {
  open_count = 0;
  locked = false;
  present = true;
  output = channel;
  input = channel;
  k_buffer = [];
  sent = [];
}

plugged-IsIdle : IsIdle plugged
plugged-IsIdle = record {
  unlocked = refl;
  output_unlocked = refl;
  output_idle = refl;
  input_unlocked = refl;
  input_idle = refl;
}

openings_exclude_example :
    let opened = (example_fpga_open true 1 board nothing).1 in
    let held = (example_open false plugged).1 in
    (((example_fpga_open true 1 board nothing).0 ≡ pos 0)
      × (example_fpga_open false 1 opened nothing ≡ (neg ebusy, opened, nothing))
      × (example_fpga_release 1 opened (example_fpga_open true 1 board nothing).2
          ≡ (pos 0, board, acquire (memory 1) nothing)))
    × ((example_open false plugged).0 ≡ pos 0)
    × (example_open false held ≡ (neg ebusy, held))
    × (example_release false held ≡ (pos 0, plugged))
    × ((example_release true held).0 ≡ neg erestartsys)
    × (example_open false (example_release true held).1 ≡ (neg ebusy, held))
openings_exclude_example =
    openings_exclude false 1 board nothing refl (omega arith) refl plugged-IsIdle refl refl
