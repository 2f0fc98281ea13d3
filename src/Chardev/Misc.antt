-- ===== src/Chardev/Misc.antt =====
-- `module_misc_device` of exemples/04-driver-caracteres/example-IV-05.c to example-IV-08.c and of
-- exemples/05-acces-au-materiel/example-V-10.c: the kernel's macro stands for an entry point that
-- registers the device and an exit point that deregisters it.
use ild.Base.{ℤ}
use ild.Kernel.Held.{Held, misc, release}
use ild.Kernel.Module.{Kernel, register}

-- example-IV-05.c
unfoldable pub ids_init : Kernel → Held → ℤ × Held
ids_init k h = register (misc 0) k.misc_register h

unfoldable pub ids_exit : Held → Held
ids_exit h = release (misc 0) h

-- example-IV-06.c
unfoldable pub flag_init : Kernel → Held → ℤ × Held
flag_init k h = register (misc 0) k.misc_register h

unfoldable pub flag_exit : Held → Held
flag_exit h = release (misc 0) h

-- example-IV-07.c
unfoldable pub unlocked_init : Kernel → Held → ℤ × Held
unlocked_init k h = register (misc 0) k.misc_register h

unfoldable pub unlocked_exit : Held → Held
unlocked_exit h = release (misc 0) h

-- example-IV-08.c
unfoldable pub locked_init : Kernel → Held → ℤ × Held
locked_init k h = register (misc 0) k.misc_register h

unfoldable pub locked_exit : Held → Held
locked_exit h = release (misc 0) h

-- example-V-10.c
unfoldable pub per_open_init : Kernel → Held → ℤ × Held
per_open_init k h = register (misc 0) k.misc_register h

unfoldable pub per_open_exit : Held → Held
per_open_exit h = release (misc 0) h
