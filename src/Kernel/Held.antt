-- ===== src/Kernel/Held.antt =====
-- What a module holds of the kernel's resources. A release of what is not held is counted.
use ild.Base.{ℕ, zero, suc, ◌+◌, Bool, false, List, [], ◌∷◌, ◌==◌, if◌then◌else◌, ◌||◌}

-- `region` is a range of device numbers, `memory` an allocation, `mapping` an `ioremap`, `usb_ref`
-- a reference that `usb_get_dev` takes.
pub data Resource : Type 0 where
  gpio : ℕ → Resource
  irq : Resource
  misc : ℕ → Resource
  region : Resource
  cdev : Resource
  class : Resource
  device : ℕ → Resource
  memory : ℕ → Resource
  mapping : ℕ → Resource
  pci_enabled : Resource
  pci_region : Resource
  msi : Resource
  urb : ℕ → Resource
  usb_minor : Resource
  usb_ref : Resource
  netdev : ℕ → Resource
  registered : ℕ → Resource
  proc_entry : ℕ → Resource
  usb_driver : Resource

-- A number for each kind, and the number within the kind.
abbrev kind : Resource → ℕ
kind (gpio n) = 0
kind irq = 1
kind (misc n) = 2
kind region = 3
kind cdev = 4
kind class = 5
kind (device n) = 6
kind (memory n) = 7
kind (mapping n) = 8
kind pci_enabled = 9
kind pci_region = 10
kind msi = 11
kind (urb n) = 12
kind usb_minor = 13
kind (netdev n) = 14
kind (registered n) = 15
kind (proc_entry n) = 16
kind usb_ref = 17
kind usb_driver = 18

abbrev index : Resource → ℕ
index (gpio n) = n
index (misc n) = n
index (device n) = n
index (memory n) = n
index (mapping n) = n
index (urb n) = n
index (netdev n) = n
index (registered n) = n
index (proc_entry n) = n
index _ = 0

abbrev pub same : Resource → Resource → Bool
same r s = if kind r == kind s then index r == index s else false

pub record Held : Type 0 where
  pub resources : List Resource
  pub faults : ℕ

abbrev pub acquire : Resource → Held → Held
acquire r h = record h { resources = r ∷ h.resources }

abbrev pub mem : Resource → List Resource → Bool
mem r [] = false
mem r (s ∷ l) = same r s || mem r l

abbrev pub erase : Resource → List Resource → List Resource
erase r [] = []
erase r (s ∷ l) = if same r s then l else s ∷ erase r l

abbrev pub release : Resource → Held → Held
release r h =
    if mem r h.resources
    then record h { resources = erase r h.resources }
    else record h { faults = h.faults + 1 }

-- What was held, and `n` times a resource that nothing gives back.
abbrev pub leaked : Resource → ℕ → Held → Held
leaked r zero h = h
leaked r (suc n) h = acquire r (leaked r n h)
