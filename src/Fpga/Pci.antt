-- ===== src/Fpga/Pci.antt =====
-- The hardware side of example-fpga.c: the set-up and the release of the PCI device, and the
-- interrupt handler.
use ild.Base.{ℕ, ◌%◌, ℤ, pos, is_zero, Bool, List, [], ◌∷◌, ◌==◌, not, if◌then◌else◌, bit_xor, set}
use ild.Kernel.Errno.{einval}
use ild.Kernel.Held.{Held, acquire, release, irq, mapping, pci_enabled, pci_region, msi}
use ild.Fpga.{Fpga}

-- What the kernel's calls return; `ioremap n` tells whether the n-th module is mapped.
pub record Env : Type 0 where
  pub irq_number : ℕ
  pub enable_device : ℤ
  pub enable_msi : ℤ
  pub request_region : ℤ
  pub ioremap : ℕ → Bool
  pub request_irq : ℤ

-- A write to a register of a module, of 8 or 32 bits.
pub data Write : Type 0 where
  leds8 : ℕ → ℕ → Write
  switches32 : ℕ → ℕ → Write
  controls32 : ℕ → ℕ → Write

-- The mappings by number: memory, leds, switches, controls.
unfoldable pub initialize_pci_device : Env → Held → (ℤ × Held) × List Write
initialize_pci_device env h =
    let msi_on = is_zero env.enable_msi in
    let h₁ = acquire pci_enabled h in
    let h₂ = if msi_on then acquire msi h₁ else h₁ in
    let h₃ = acquire pci_region h₂ in
    let h₄ = acquire (mapping 0) h₃ in
    let h₅ = acquire (mapping 1) h₄ in
    let h₆ = acquire (mapping 2) h₅ in
    let h₇ = acquire (mapping 3) h₆ in
    let disable = λ (k : Held). release pci_enabled k in
    let undo₃ = λ (k : Held). disable (release pci_region k) in
    let undo₄ = λ (k : Held). undo₃ (release (mapping 0) k) in
    let undo₅ = λ (k : Held). undo₄ (release (mapping 1) k) in
    let undo₆ = λ (k : Held). undo₅ (release (mapping 2) k) in
    let undo₇ = λ (k : Held). undo₆ (release (mapping 3) k) in
    let enables = switches32 0x0C 3 ∷ switches32 0x08 3 ∷ controls32 0x50 1 ∷ [] in
    if not (is_zero env.enable_device)
    then ((env.enable_device, h), [])
    else (if not (is_zero env.request_region)
        then ((env.request_region, disable h₂), [])
        else (if not (env.ioremap 0)
            then ((pos einval, undo₃ h₃), [])
            else (if not (env.ioremap 1)
                then ((pos einval, undo₄ h₄), [])
                else (if not (env.ioremap 2)
                    then ((pos einval, undo₅ h₅), [])
                    else (if not (env.ioremap 3)
                        then ((pos einval, undo₆ h₆), [])
                        else (if not (env.irq_number == 0)
                            then (if not (is_zero env.request_irq)
                                then ((pos einval, undo₇ h₇), [])
                                else ((pos 0, acquire irq h₇), enables))
                            else ((pos 0, h₇), enables)))))))

unfoldable pub release_pci_device : Env → Held → Held × List Write
release_pci_device env h =
    let h₁ = if not (env.irq_number == 0) then release irq h else h in
    let h₂ =
      release (mapping 0) (release (mapping 1) (release (mapping 2) (release (mapping 3) h₁))) in
    let h₃ = release pci_region h₂ in
    let h₄ = if is_zero env.enable_msi then release msi h₃ else h₃ in
    (release pci_enabled h₄, controls32 0x50 0 ∷ switches32 8 0 ∷ [])

pub data IrqReturn : Type 0 where
  irq_none irq_handled : IrqReturn

-- `status` is what register 0x40 of the controls reads as, and `edge` register 0x0C of the
-- switches.
unfoldable pub interrupt_handler : ℕ → ℕ → Fpga → IrqReturn × Fpga × List Write
interrupt_handler status edge s =
    let value = bit_xor s.value edge in
    let acknowledge =
      switches32 0x08 0 ∷ switches32 0x0C 3 ∷ switches32 0x08 3 ∷ controls32 0x50 1 ∷ [] in
    if status == 0
    then (irq_none, s, [])
    else (if not (s.irq_handling == 0)
        then (
          irq_handled,
          record s { value = value; module_leds = set s.module_leds 0 (value % 256) },
          leds8 0 (value % 256) ∷ acknowledge,
        )
        else (irq_handled, s, acknowledge))
