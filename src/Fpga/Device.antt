-- ===== src/Fpga/Device.antt =====
-- The user side of example-fpga.c: the region of device numbers, the three devices and the
-- character device. `memory 0` is the driver's private structure.
use ild.Base.{ℤ, pos, is_zero, is_neg, not, if◌then◌else◌}
use ild.Kernel.Errno.{einval}
use ild.Kernel.Held.{Held, acquire, release, region, device, cdev, memory}

pub record Env : Type 0 where
  pub alloc_region : ℤ
  pub cdev_add : ℤ

-- The structure is freed if no region is free.
unfoldable pub initialize_char_device : Env → Held → ℤ × Held
initialize_char_device env h =
    let h₁ = acquire region h in
    let h₂ = acquire (device 2) (acquire (device 1) (acquire (device 0) h₁)) in
    if is_neg env.alloc_region
    then (pos einval, release (memory 0) h)
    else (if not (is_zero env.cdev_add)
        then (env.cdev_add, release region (release (device 0) h₂))
        else (pos 0, acquire cdev h₂))

unfoldable pub release_char_device : Held → Held
release_char_device h =
    release region (release (device 2) (release (device 1) (release (device 0) (release cdev h))))
