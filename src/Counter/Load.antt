-- ===== src/Counter/Load.antt =====
-- The entry and exit points of solutions/tp-IV-01-counter-read.c, tp-IV-02-counter-write.c and
-- tp-IV-03-counter-ioctl.c.
use ild.Base.{ℤ}
use ild.Kernel.Held.{Held, misc, release}
use ild.Kernel.Module.{Kernel, register}

-- tp-IV-01-counter-read.c
unfoldable pub plain_init : Kernel → Held → ℤ × Held
plain_init k h = register (misc 0) k.misc_register h

unfoldable pub plain_exit : Held → Held
plain_exit h = release (misc 0) h

-- tp-IV-02-counter-write.c
unfoldable pub writable_init : Kernel → Held → ℤ × Held
writable_init k h = register (misc 0) k.misc_register h

unfoldable pub writable_exit : Held → Held
writable_exit h = release (misc 0) h

-- tp-IV-03-counter-ioctl.c
unfoldable pub stepped_init : Kernel → Held → ℤ × Held
stepped_init k h = register (misc 0) k.misc_register h

unfoldable pub stepped_exit : Held → Held
stepped_exit h = release (misc 0) h
