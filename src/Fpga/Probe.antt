-- ===== src/Fpga/Probe.antt =====
-- The methods of the PCI driver in example-fpga.c, and the entry and exit points of the module.
use ild.Base.{
  ◌+◌, ◌≡◌, ℤ, pos, neg, is_zero, is_neg, Bool, true, false, ◌==◌, ◌||◌, not, if◌then◌else◌, arith,
}
use ild.Kernel.Errno.{enomem, einval}
use ild.Kernel.Held.{Held, acquire, release, mem, memory, class, device, msi}
use ild.Fpga.Pci
use ild.Fpga.Pci.{initialize_pci_device, release_pci_device}
use ild.Fpga.Device
use ild.Fpga.Device.{initialize_char_device, release_char_device}

-- The driver's data of the device (`pci_set_drvdata`): whether it is set.
pub record Bound : Type 0 where
  pub drvdata : Bool
  pub held : Held

unfoldable pub example_fpga_probe : Bool → Pci.Env → Device.Env → Held → ℤ × Bound
example_fpga_probe kzalloc pci char h =
    let h₁ = acquire (memory 0) h in
    let low = initialize_pci_device pci h₁ in
    let high = initialize_char_device char low.0.1 in
    if pci.irq_number == 0
    then (pos 0, record { drvdata = false; held = h })
    else (if not kzalloc
        then (neg enomem, record { drvdata = false; held = h })
        else (if not (is_zero low.0.0)
            then (low.0.0, record { drvdata = false; held = release (memory 0) low.0.1 })
            else (if not (is_zero high.0)
                then (
                  high.0,
                  record {
                    drvdata = true;
                    held = release (memory 0) (release_pci_device pci high.1).0;
                  },
                )
                else (pos 0, record { drvdata = true; held = high.1 }))))

unfoldable pub example_fpga_remove : Pci.Env → Bound → Held
example_fpga_remove pci b =
    if not b.drvdata
    then b.held
    else release (memory 0) (release_pci_device pci (release_char_device b.held)).0

-- `class_create` fails or not, and `pci_register_driver` returns a code.
unfoldable pub example_fpga_init : Bool → ℤ → Held → ℤ × Held
example_fpga_init class_create register_driver h =
    if not class_create
    then (neg einval, h)
    else (if not (is_zero register_driver)
        then (register_driver, release class (acquire class h))
        else (pos 0, acquire class h))

-- The class is there whenever the module was loaded.
unfoldable pub example_fpga_exit : Held → Held
example_fpga_exit h = release class h

module _ (pci : Pci.Env) (char : Device.Env) (h : Held)
    (wired : (pci.irq_number == 0) ≡ false) where
  -- A device whose set-up succeeds is bound with its data set, and its removal gives back exactly
  -- what was held before, whether or not it uses MSI.
  pub probe-remove :
      (initialize_pci_device pci (acquire (memory 0) h)).0.0 ≡ pos 0
      → is_neg char.alloc_region ≡ false
      → char.cdev_add ≡ pos 0
      → ((example_fpga_probe true pci char h).0 ≡ pos 0)
        × ((example_fpga_probe true pci char h).1.drvdata ≡ true)
        × (example_fpga_remove pci (example_fpga_probe true pci char h).1 ≡ h)
  unfolding example_fpga_probe example_fpga_remove initialize_pci_device release_pci_device
      initialize_char_device release_char_device
  probe-remove low region add = ground arith

  -- A probe whose character device fails does not give back what it took. When no region of device
  -- numbers is free, the private structure is freed twice and the probe returns a positive number;
  -- when the character device cannot be added, its error is returned and two of the three devices
  -- that were created remain. The device's data stay set.
  pub probe_unwinds :
      mem (memory 0) h.resources ≡ false
      → (initialize_pci_device pci (acquire (memory 0) h)).0.0 ≡ pos 0
      → (is_neg char.alloc_region || not (is_zero char.cdev_add)) ≡ true
      → ((example_fpga_probe true pci char h).1.drvdata ≡ true)
        × ((example_fpga_probe true pci char h).0
            ≡ (if is_neg char.alloc_region then pos einval else char.cdev_add))
        × ((example_fpga_probe true pci char h).1.held ≡ (
            if is_neg char.alloc_region
            then record h { faults = h.faults + 1 }
            else acquire (device 2) (acquire (device 1) h)))
  unfolding example_fpga_probe initialize_pci_device release_pci_device initialize_char_device
  probe_unwinds fresh low fails = ground arith

-- A set-up of the PCI device that fails after the device was enabled gives everything back but
-- message signalled interrupts, which stay enabled if they were.
pub initialize_pci_device_fails :
    (pci : Pci.Env) (h : Held)
    → is_zero (initialize_pci_device pci h).0.0 ≡ false
    → is_zero pci.enable_device ≡ true
    → (initialize_pci_device pci h).0.1 ≡ (if is_zero pci.enable_msi then acquire msi h else h)
unfolding initialize_pci_device
initialize_pci_device_fails pci h e d = ground arith
