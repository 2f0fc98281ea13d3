-- ===== src/Chardev/Load.antt =====
-- The entry and exit points of exemples/04-driver-caracteres/example-IV-01.c to example-IV-04.c.
use ild.Base.{ℤ, pos, neg, is_zero, is_neg, Bool, false, not, if◌then◌else◌, ◌≡◌, [], ◌∷◌, arith}
use ild.Kernel.Errno.{einval}
use ild.Kernel.Held.{Held, acquire, release, region, class, device, cdev, misc, mem}
use ild.Gpio.Balance.{settle, first_error}

-- What the kernel's functions return, or whether they succeed.
pub record Env : Type 0 where
  pub alloc_chrdev_region : ℤ
  pub class_create : Bool
  pub device_create : Bool
  pub cdev_add : ℤ
  pub misc_register : ℤ

unfoldable pub region_init : Env → Held → ℤ × Held
region_init env h =
    if is_neg env.alloc_chrdev_region
    then (env.alloc_chrdev_region, h)
    else (pos 0, acquire region h)

unfoldable pub region_exit : Held → Held
region_exit h = release region h

unfoldable pub cdev_init : Env → Held → ℤ × Held
cdev_init env h =
    let h₁ = acquire region h in
    if is_neg env.alloc_chrdev_region
    then (env.alloc_chrdev_region, h)
    else (if not (is_zero env.cdev_add)
        then (env.cdev_add, release region h₁)
        else (pos 0, acquire cdev h₁))

unfoldable pub cdev_exit : Held → Held
cdev_exit h = release region (release cdev h)

-- `device_destroy` looks the device up, and does nothing when `device_create` has failed, whose
-- result the code does not read.
abbrev device_destroy : Held → Held
device_destroy h = if mem (device 0) h.resources then release (device 0) h else h

unfoldable pub class_init : Env → Held → ℤ × Held
class_init env h =
    let h₁ = acquire region h in
    let h₂ = acquire class h₁ in
    let h₃ = if env.device_create then acquire (device 0) h₂ else h₂ in
    if is_neg env.alloc_chrdev_region
    then (env.alloc_chrdev_region, h)
    else (if not env.class_create
        then (neg einval, release region h₁)
        else (if not (is_zero env.cdev_add)
            then (env.cdev_add, release region (release class (device_destroy h₃)))
            else (pos 0, acquire cdev h₃)))

unfoldable pub class_exit : Held → Held
class_exit h = release region (release cdev (release class (device_destroy h)))

unfoldable pub misc_init : Env → Held → ℤ × Held
misc_init env h =
    if is_zero env.misc_register
    then (env.misc_register, acquire (misc 0) h)
    else (env.misc_register, h)

unfoldable pub misc_exit : Held → Held
misc_exit h = release (misc 0) h

-- A result that the code takes for an error only when it is negative.
abbrev pub only_negative : ℤ → ℤ
only_negative e = if is_neg e then e else pos 0

abbrev pub class_created : Bool → ℤ
class_created b = if b then pos 0 else neg einval

-- The entry points of the character drivers return the first error of the calls that they make, and
-- a refusal to load, or loading and removal, leave exactly what was held before, also when the
-- kernel could not create the device of the class.
pub chardev_settles :
    (env : Env) (h : Held)
    → mem (device 0) h.resources ≡ false
    → ((region_init env h).0 ≡ only_negative env.alloc_chrdev_region)
      × (settle region_exit (region_init env h) ≡ h)
      × ((cdev_init env h).0
          ≡ first_error (only_negative env.alloc_chrdev_region ∷ env.cdev_add ∷ []))
      × (settle cdev_exit (cdev_init env h) ≡ h)
      × ((class_init env h).0
          ≡ first_error (
              only_negative env.alloc_chrdev_region
              ∷ class_created env.class_create
              ∷ env.cdev_add
              ∷ []))
      × (settle class_exit (class_init env h) ≡ h)
      × ((misc_init env h).0 ≡ first_error (env.misc_register ∷ []))
      × (settle misc_exit (misc_init env h) ≡ h)
unfolding region_init region_exit cdev_init cdev_exit class_init class_exit misc_init misc_exit
chardev_settles env h fresh = (
  ground arith,
  ground arith,
  ground arith,
  ground arith,
  ground arith,
  ground arith,
  ground arith,
  ground arith,
)
