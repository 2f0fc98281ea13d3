-- ===== src/Fpga/System.antt =====
-- The driver of example-fpga.c between its probe and its removal, under any sequence of system
-- calls and interrupts.
use ild.Base.{
  ℕ, suc, ◌≤◌, ◌≡◌, is_zero, Bool, false, List, [], ◌∷◌, ltb, ◌==◌, if◌then◌else◌, length, get_or,
}
use ild.Kernel.Held.{Held}
use ild.Fpga.{Fpga, module_mem_length, nb_minors}
use ild.Fpga.File.{
  Command, example_fpga_open, example_fpga_release, example_fpga_write, example_fpga_ioctl,
}
use ild.Fpga.Pci.{interrupt_handler}

-- The private data, what is held, and the openings that succeeded.
pub record Running : Type 0 where
  pub fpga : Fpga
  pub held : Held
  pub openings : ℕ

-- The calls that change something, with their arguments and what the kernel's functions answer, and
-- the interrupts, with what the registers read as.
pub data Call : Type 0 where
  opened : Bool → ℕ → Call
  closed : ℕ → Call
  written : Bool → List ℕ → ℕ → ℕ → ℕ → ℕ → Call
  controlled : Bool → Command → ℕ → ℕ → Call
  interrupted : ℕ → ℕ → Call

-- The kernel opens the three minors alone, and closes a file that is open.
unfoldable pub open_minor : Bool → ℕ → Running → Running
open_minor kmalloc minor r =
    let (err, fpga, held) = example_fpga_open kmalloc minor r.fpga r.held in
    if ltb minor nb_minors
    then record {
      fpga = fpga;
      held = held;
      openings = if is_zero err then suc r.openings else r.openings;
    }
    else r

unfoldable pub close_minor : ℕ → Running → Running
close_minor minor r =
    let (err, fpga, held) = example_fpga_release minor r.fpga r.held in
    if get_or r.fpga.module_open minor 0 == 0 then r else record r { fpga = fpga; held = held }

abbrev pub act : Call → Running → Running
act (opened kmalloc minor) r = open_minor kmalloc minor r
act (closed minor) r = close_minor minor r
act (written kmalloc buffer minor size left offset) r = record r {
  fpga = (example_fpga_write kmalloc buffer minor size left offset r.fpga).2;
}
act (controlled access_ok cmd word left) r = record r {
  fpga = (example_fpga_ioctl access_ok cmd word left r.fpga).1;
}
act (interrupted status edge) r = record r { fpga = (interrupt_handler status edge r.fpga).1 }

abbrev pub act_all : List Call → Running → Running
act_all [] r = r
act_all (c ∷ cs) r = act_all cs (act c r)

-- The mappings keep their sizes, the mutex is free, and no minor is open twice.
pub record IsSound (leds : ℕ) (s : Fpga) : Type 0 where
  pub mem : length s.module_mem ≡ module_mem_length
  pub led : length s.module_leds ≡ leds
  pub minors : length s.module_open ≡ nb_minors
  pub single : (minor : ℕ) → get_or s.module_open minor 0 ≤ 1
  pub unlocked : s.locked ≡ false
