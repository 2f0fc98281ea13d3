-- ===== src/Proc/Load.antt =====
-- The entry and exit points of the modules that create /proc entries.
use ild.Base.{ℤ, pos, neg, Bool, not, if◌then◌else◌, ◌≡◌, [], ◌∷◌, arith}
use ild.Kernel.Errno.{ebusy}
use ild.Kernel.Held.{Held, acquire, release, proc_entry}
use ild.Gpio.Balance.{settle, first_error}

-- exemples/02-appels-systeme/example-II-02.c: `proc_create` tells whether the entry is created.
unfoldable pub proc_init : Bool → Held → ℤ × Held
proc_init proc_create h =
    if not proc_create then (neg ebusy, h) else (pos 0, acquire (proc_entry 0) h)

unfoldable pub proc_exit : Held → Held
proc_exit h = release (proc_entry 0) h

-- solutions/tp-II-03-proc-sum.c
unfoldable pub sum_init : Bool → Held → ℤ × Held
sum_init proc_create h =
    if not proc_create then (neg ebusy, h) else (pos 0, acquire (proc_entry 0) h)

unfoldable pub sum_exit : Held → Held
sum_exit h = release (proc_entry 0) h

-- solutions/tp-II-02-proc-current-pid.c: the directory is the entry 0, the file in it the entry 1.
unfoldable pub current_pid_init : Bool → Bool → Held → ℤ × Held
current_pid_init mkdir create h =
    let h₁ = acquire (proc_entry 0) h in
    if not mkdir
    then (neg ebusy, h)
    else (if not create
        then (neg ebusy, release (proc_entry 0) h₁)
        else (pos 0, acquire (proc_entry 1) h₁))

unfoldable pub current_pid_exit : Held → Held
current_pid_exit h = release (proc_entry 0) (release (proc_entry 1) h)

abbrev pub entry_created : Bool → ℤ
entry_created b = if b then pos 0 else neg ebusy

-- The entry points of the modules of /proc files return -EBUSY when an entry cannot be created, and
-- a refusal to load, or loading and removal, leave exactly what was held before.
pub proc_settles :
    (mkdir create : Bool) (h : Held)
    → ((proc_init create h).0 ≡ entry_created create)
      × (settle proc_exit (proc_init create h) ≡ h)
      × ((sum_init create h).0 ≡ entry_created create)
      × (settle sum_exit (sum_init create h) ≡ h)
      × ((current_pid_init mkdir create h).0
          ≡ first_error (entry_created mkdir ∷ entry_created create ∷ []))
      × (settle current_pid_exit (current_pid_init mkdir create h) ≡ h)
unfolding proc_init proc_exit sum_init sum_exit current_pid_init current_pid_exit
proc_settles mkdir create h = ground arith
