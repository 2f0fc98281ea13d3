-- ===== src/Entry/Catalogue.antt =====
-- The modules whose entry points register one thing, and those that register nothing, each loaded
-- and removed.
use ild.Base.{ℤ, pos, neg, if◌then◌else◌, not, ◌≡◌, List, [], ◌∷◌, ◌++◌, arith}
use ild.Kernel.Errno.{enomem}
use ild.Kernel.Held.{Held, acquire, release, misc, memory, usb_driver}
use ild.Kernel.Module.{Kernel, Module, register, register_or_error}
use ild.Gpio.Balance.{settle}
use ild.Counter.Load as Counters
use ild.Message.Load as Queues
use ild.Chardev.Misc as Devices
use ild.Usb.Load as Drivers
use ild.Proc.Load.{proc_init, proc_exit, entry_created}
use ild.Proc.Entries as Entries
use ild.Log.{log_init, log_exit}

-- solutions/tp-III-03-memory-addresses.c, which allocates a buffer and frees it.
unfoldable pub memory_addresses_init : Kernel → Held → ℤ × Held
memory_addresses_init k h =
    if not k.kmalloc then (neg enomem, h) else (pos 0, release (memory 0) (acquire (memory 0) h))

unfoldable pub memory_addresses_exit : Held → Held
memory_addresses_exit h = h

abbrev misc_module : (Kernel → Held → ℤ × Held) → (Held → Held) → Module
misc_module init exit = record { init = init; exit = exit; expected = λ k. k.misc_register }

abbrev usb_module : (Kernel → Held → ℤ × Held) → (Held → Held) → Module
usb_module init exit = record { init = init; exit = exit; expected = λ k. k.usb_register }

abbrev proc_module : (Kernel → Held → ℤ × Held) → (Held → Held) → Module
proc_module init exit = record {
  init = init;
  exit = exit;
  expected = λ k. entry_created k.proc_create;
}

abbrev pub misc_modules : List Module
misc_modules =
    misc_module Counters.plain_init Counters.plain_exit
    ∷ misc_module Counters.writable_init Counters.writable_exit
    ∷ misc_module Counters.stepped_init Counters.stepped_exit
    ∷ misc_module Queues.plain_init Queues.plain_exit
    ∷ misc_module Queues.mutex_init Queues.mutex_exit
    ∷ misc_module Queues.blocking_init Queues.blocking_exit
    ∷ misc_module Queues.both_blocking_init Queues.both_blocking_exit
    ∷ misc_module Devices.ids_init Devices.ids_exit
    ∷ misc_module Devices.flag_init Devices.flag_exit
    ∷ misc_module Devices.unlocked_init Devices.unlocked_exit
    ∷ misc_module Devices.locked_init Devices.locked_exit
    ∷ misc_module Devices.per_open_init Devices.per_open_exit
    ∷ []

abbrev pub usb_modules : List Module
usb_modules =
    usb_module Drivers.first_init Drivers.first_exit
    ∷ usb_module Drivers.listing_init Drivers.listing_exit
    ∷ usb_module Drivers.plain_init Drivers.plain_exit
    ∷ usb_module Drivers.kit_init Drivers.kit_exit
    ∷ usb_module Drivers.usb_init Drivers.usb_exit
    ∷ []

abbrev pub proc_modules : List Module
proc_modules =
    proc_module (λ k. proc_init k.proc_create) proc_exit
    ∷ proc_module Entries.whole_init Entries.whole_exit
    ∷ proc_module Entries.piece_init Entries.piece_exit
    ∷ proc_module Entries.simple_init Entries.simple_exit
    ∷ proc_module Entries.value_init Entries.value_exit
    ∷ proc_module (λ k. log_init k.proc_create) log_exit
    ∷ []

abbrev memory_addresses : Module
memory_addresses = record {
  init = memory_addresses_init;
  exit = memory_addresses_exit;
  expected = λ k. if k.kmalloc then pos 0 else neg enomem;
}

abbrev pub catalogue : List Module
catalogue = misc_modules ++ usb_modules ++ proc_modules ++ memory_addresses ∷ []

-- Loading a module has the expected result, and leaves nothing if it is refused, or once it is
-- removed.
abbrev pub Settles : Kernel → Held → Module → Type 0
Settles k h m = ((m.init k h).0 ≡ m.expected k) × (settle m.exit (m.init k h) ≡ h)

abbrev pub AllSettle : Kernel → Held → List Module → Type 0
AllSettle k h [] = Unit {0}
AllSettle k h (m ∷ ms) = Settles k h m × AllSettle k h ms

misc_module-Settles :
    (k : Kernel) (h : Held)
    → Settles k h (misc_module (λ k h. register (misc 0) k.misc_register h) (release (misc 0)))
misc_module-Settles k h = (ground arith, ground arith)

usb_module-Settles :
    (k : Kernel) (h : Held)
    → Settles k h
        (usb_module (λ k h. register_or_error usb_driver k.usb_register h) (release usb_driver))
usb_module-Settles k h = (ground arith, ground arith)

proc_module-Settles :
    (k : Kernel) (h : Held) → Settles k h (proc_module (λ k. proc_init k.proc_create) proc_exit)
unfolding proc_init proc_exit
proc_module-Settles k h = (ground arith, ground arith)

misc_modules-AllSettle : (k : Kernel) (h : Held) → AllSettle k h misc_modules
unfolding Counters.plain_init Counters.plain_exit Counters.writable_init Counters.writable_exit
    Counters.stepped_init Counters.stepped_exit Queues.plain_init Queues.plain_exit
    Queues.mutex_init Queues.mutex_exit Queues.blocking_init Queues.blocking_exit
    Queues.both_blocking_init Queues.both_blocking_exit Devices.ids_init Devices.ids_exit
    Devices.flag_init Devices.flag_exit Devices.unlocked_init Devices.unlocked_exit
    Devices.locked_init Devices.locked_exit Devices.per_open_init Devices.per_open_exit
misc_modules-AllSettle k h =
    let s = misc_module-Settles k h in
    (s, (s, (s, (s, (s, (s, (s, (s, (s, (s, (s, (s, tt))))))))))))

usb_modules-AllSettle : (k : Kernel) (h : Held) → AllSettle k h usb_modules
unfolding Drivers.first_init Drivers.first_exit Drivers.listing_init Drivers.listing_exit
    Drivers.plain_init Drivers.plain_exit Drivers.kit_init Drivers.kit_exit Drivers.usb_init
    Drivers.usb_exit
usb_modules-AllSettle k h = let s = usb_module-Settles k h in (s, (s, (s, (s, (s, tt)))))

proc_modules-AllSettle : (k : Kernel) (h : Held) → AllSettle k h proc_modules
unfolding proc_init proc_exit Entries.whole_init Entries.whole_exit Entries.piece_init
    Entries.piece_exit Entries.simple_init Entries.simple_exit Entries.value_init Entries.value_exit
    log_init log_exit
proc_modules-AllSettle k h = let s = proc_module-Settles k h in (s, (s, (s, (s, (s, (s, tt))))))

AllSettle-append :
    (k : Kernel) (h : Held) (ms ns : List Module)
    → AllSettle k h ms
    → AllSettle k h ns
    → AllSettle k h (ms ++ ns)
AllSettle-append k h [] ns a b = b
AllSettle-append k h (m ∷ ms) ns a b = (a.0, AllSettle-append k h ms ns a.1 b)

memory_addresses-Settles : (k : Kernel) (h : Held) → Settles k h memory_addresses
unfolding memory_addresses_init memory_addresses_exit
memory_addresses-Settles k h = (ground arith, ground arith)

-- Each returns what its registration returns, -EBUSY where an entry cannot be created, and -ENOMEM
-- where there is no memory, and leaves what was held before, refused or loaded and removed.
catalogue-AllSettle : (k : Kernel) (h : Held) → AllSettle k h catalogue
catalogue-AllSettle k h =
    AllSettle-append k h misc_modules (usb_modules ++ proc_modules ++ memory_addresses ∷ [])
      (misc_modules-AllSettle k h)
      (AllSettle-append k h usb_modules (proc_modules ++ memory_addresses ∷ [])
        (usb_modules-AllSettle k h)
        (AllSettle-append k h proc_modules (memory_addresses ∷ []) (proc_modules-AllSettle k h)
          (memory_addresses-Settles k h, tt)))
