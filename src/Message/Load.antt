-- ===== src/Message/Load.antt =====
-- The entry and exit points of the four versions of the message queue.
use ild.Base.{ℤ}
use ild.Kernel.Held.{Held, misc, release}
use ild.Kernel.Module.{Kernel, register}

-- tp-V-01-message-read-write.c
unfoldable pub plain_init : Kernel → Held → ℤ × Held
plain_init k h = register (misc 0) k.misc_register h

unfoldable pub plain_exit : Held → Held
plain_exit h = release (misc 0) h

-- tp-V-02-message-mutex.c
unfoldable pub mutex_init : Kernel → Held → ℤ × Held
mutex_init k h = register (misc 0) k.misc_register h

unfoldable pub mutex_exit : Held → Held
mutex_exit h = release (misc 0) h

-- tp-V-03-blocking-read.c
unfoldable pub blocking_init : Kernel → Held → ℤ × Held
blocking_init k h = register (misc 0) k.misc_register h

unfoldable pub blocking_exit : Held → Held
blocking_exit h = release (misc 0) h

-- tp-V-04-blocking-write.c
unfoldable pub both_blocking_init : Kernel → Held → ℤ × Held
both_blocking_init k h = register (misc 0) k.misc_register h

unfoldable pub both_blocking_exit : Held → Held
both_blocking_exit h = release (misc 0) h
