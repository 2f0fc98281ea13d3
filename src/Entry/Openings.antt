-- ===== src/Entry/Openings.antt =====
-- The exclusive openings of example-fpga.c and of example-VII-05.c.
use ild.Base.{ℕ, ◌<◌, ◌≡◌, pos, neg, Bool, true, false, length, get_or}
use ild.Kernel.Errno.{ebusy, erestartsys}
use ild.Kernel.Held.{Held, acquire, memory}
use ild.Fpga.{Fpga}
use ild.Fpga.File.{example_fpga_open, example_fpga_release}
use ild.Fpga.Access.{open_exclusive}
use ild.Usb.{Usb, example_open, example_release}
use ild.Usb.Idle.{IsIdle}
use ild.Usb.Transfers.{usb_open-release}

-- A minor of the FPGA that is known and not open, while the driver is not locked, and a USB device
-- that is idle, there and closed are opened once, and a second opening returns -EBUSY and changes
-- nothing. A release that no signal interrupts makes either device as it was, but the private
-- structure of the FPGA's file stays allocated, and after a release of the USB device that a signal
-- interrupts it can not be opened again.
pub openings_exclude :
    (kmalloc : Bool) (minor : ℕ) (s : Fpga) (h : Held) {u : Usb}
    → get_or s.module_open minor 0 ≡ 0
    → minor < length s.module_open
    → s.locked ≡ false
    → IsIdle u
    → u.present ≡ true
    → u.open_count ≡ 0
    → let opened = (example_fpga_open true minor s h).1 in
      let plugged = (example_open false u).1 in
      (((example_fpga_open true minor s h).0 ≡ pos 0)
        × (example_fpga_open kmalloc minor opened h ≡ (neg ebusy, opened, h))
        × (example_fpga_release minor opened (example_fpga_open true minor s h).2
            ≡ (pos 0, s, acquire (memory 1) h)))
      × ((example_open false u).0 ≡ pos 0)
      × (example_open false plugged ≡ (neg ebusy, plugged))
      × (example_release false plugged ≡ (pos 0, u))
      × ((example_release true plugged).0 ≡ neg erestartsys)
      × (example_open false (example_release true plugged).1 ≡ (neg ebusy, plugged))
openings_exclude kmalloc minor s h closed known free i there shut =
    let o = usb_open-release i there shut in
    (open_exclusive minor s h kmalloc closed known free, o.0, o.1, o.2, o.3, o.4)
