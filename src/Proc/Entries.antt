-- ===== src/Proc/Entries.antt =====
-- The entry and exit points of exemples/02-appels-systeme/example-II-03.c to example-II-06.c, which
-- create the entry as example-II-02.c does.
use ild.Base.{ℤ}
use ild.Kernel.Held.{Held}
use ild.Kernel.Module.{Kernel}
use ild.Proc.Load.{proc_init, proc_exit}

-- example-II-03.c
unfoldable pub whole_init : Kernel → Held → ℤ × Held
whole_init k h = proc_init k.proc_create h

unfoldable pub whole_exit : Held → Held
whole_exit h = proc_exit h

-- example-II-04.c
unfoldable pub piece_init : Kernel → Held → ℤ × Held
piece_init k h = proc_init k.proc_create h

unfoldable pub piece_exit : Held → Held
piece_exit h = proc_exit h

-- example-II-05.c
unfoldable pub simple_init : Kernel → Held → ℤ × Held
simple_init k h = proc_init k.proc_create h

unfoldable pub simple_exit : Held → Held
simple_exit h = proc_exit h

-- example-II-06.c
unfoldable pub value_init : Kernel → Held → ℤ × Held
value_init k h = proc_init k.proc_create h

unfoldable pub value_exit : Held → Held
value_exit h = proc_exit h
