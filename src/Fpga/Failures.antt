-- ===== src/Fpga/Failures.antt =====
-- The set-up of a device, and what is left of it when it fails.
use ild.Base.{◌+◌, ◌≡◌, pos, is_zero, is_neg, true, false, ◌==◌, ◌||◌, not, if◌then◌else◌}
use ild.Kernel.Errno.{einval}
use ild.Kernel.Held.{Held, acquire, mem, memory, device, msi}
use ild.Fpga.Pci
use ild.Fpga.Pci.{initialize_pci_device}
use ild.Fpga.Device
use ild.Fpga.Probe.{
  example_fpga_probe, example_fpga_remove, probe-remove, probe_unwinds, initialize_pci_device_fails,
}

-- A device whose set-up succeeds is bound with its data set, and its removal gives back exactly
-- what was held before, whether or not it uses MSI. A probe whose character device fails leaves the
-- data set and does not give back what it took: when no region of device numbers is free, the
-- private structure is freed twice and the probe returns a positive number; when the character
-- device cannot be added, its error is returned and two of the three devices that were created
-- remain. A set-up of the PCI device that fails after the device was enabled gives everything back
-- but message signalled interrupts, which stay enabled if they were.
pub probe_outcomes :
    (pci refused : Pci.Env) (char broken : Device.Env) (h : Held)
    → (pci.irq_number == 0) ≡ false
    → (initialize_pci_device pci (acquire (memory 0) h)).0.0 ≡ pos 0
    → is_neg char.alloc_region ≡ false
    → char.cdev_add ≡ pos 0
    → mem (memory 0) h.resources ≡ false
    → (is_neg broken.alloc_region || not (is_zero broken.cdev_add)) ≡ true
    → is_zero (initialize_pci_device refused h).0.0 ≡ false
    → is_zero refused.enable_device ≡ true
    → (let (err, bound) = example_fpga_probe true pci char h in
        (err ≡ pos 0) × (bound.drvdata ≡ true) × (example_fpga_remove pci bound ≡ h))
      × (let (err, bound) = example_fpga_probe true pci broken h in
          (bound.drvdata ≡ true)
          × (err ≡ (if is_neg broken.alloc_region then pos einval else broken.cdev_add))
          × (bound.held ≡ (
              if is_neg broken.alloc_region
              then record h { faults = h.faults + 1 }
              else acquire (device 2) (acquire (device 1) h))))
      × ((initialize_pci_device refused h).0.1
          ≡ (if is_zero refused.enable_msi then acquire msi h else h))
probe_outcomes pci refused char broken h wired low region add fresh fails bad enabled = (
  probe-remove pci char h wired low region add,
  probe_unwinds pci broken h wired fresh low fails,
  initialize_pci_device_fails refused h bad enabled,
)
