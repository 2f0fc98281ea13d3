-- ===== src/Kernel/Errno.antt =====
-- The error numbers that the drivers return; `neg efault` is the source's `-EFAULT`.
use ild.Base.{ℕ}

abbrev pub eio : ℕ
eio = 5

abbrev pub eagain : ℕ
eagain = 11

abbrev pub enomem : ℕ
enomem = 12

abbrev pub efault : ℕ
efault = 14

abbrev pub ebusy : ℕ
ebusy = 16

abbrev pub enodev : ℕ
enodev = 19

abbrev pub einval : ℕ
einval = 22

abbrev pub enotty : ℕ
enotty = 25

abbrev pub enospc : ℕ
enospc = 28

abbrev pub erestartsys : ℕ
erestartsys = 512
