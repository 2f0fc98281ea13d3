-- ===== src/Entry/Registered.antt =====
-- The modules that register character devices, /proc entries or network devices.
use ild.Base.{Bool, false, ◌≡◌, ◌∷◌, []}
use ild.Kernel.Held.{Held, mem, device}
use ild.Gpio.Balance.{settle, first_error}
use ild.Chardev.Load
use ild.Chardev.Load.{
  region_init, region_exit, cdev_init, cdev_exit, class_init, class_exit, misc_init, misc_exit,
  only_negative, class_created, chardev_settles,
}
use ild.Proc.Load.{
  proc_init, proc_exit, sum_init, sum_exit, current_pid_init, current_pid_exit, entry_created,
  proc_settles,
}
use ild.Net.Load.{
  Env as NetEnv, allocated, found, example_init as net_init, example_exit as net_exit,
  net_init_settles,
}
use ild.Net.Bare.{bare_init, bare_exit, bare_init_settles}

-- The entry points of the character drivers, of the modules of /proc files and of the pairs of
-- network devices return the first error of the calls that they make, as they translate it, and a
-- refusal to load, or loading and removal, leave exactly what was held before; also when the kernel
-- could not create the device of a class, which the code does not test, provided that no such
-- device was there.
pub registrations_settle :
    (env : Load.Env) (mkdir create : Bool) (net : NetEnv) (h : Held)
    → mem (device 0) h.resources ≡ false
    → ((region_init env h).0 ≡ only_negative env.alloc_chrdev_region)
      × (settle region_exit (region_init env h) ≡ h)
      × ((cdev_init env h).0
          ≡ first_error (only_negative env.alloc_chrdev_region ∷ env.cdev_add ∷ []))
      × (settle cdev_exit (cdev_init env h) ≡ h)
      × ((class_init env h).0
          ≡ first_error (
              only_negative env.alloc_chrdev_region
              ∷ class_created env.class_create
              ∷ env.cdev_add
              ∷ []))
      × (settle class_exit (class_init env h) ≡ h)
      × ((misc_init env h).0 ≡ first_error (env.misc_register ∷ []))
      × (settle misc_exit (misc_init env h) ≡ h)
      × ((proc_init create h).0 ≡ entry_created create)
      × (settle proc_exit (proc_init create h) ≡ h)
      × ((sum_init create h).0 ≡ entry_created create)
      × (settle sum_exit (sum_init create h) ≡ h)
      × ((current_pid_init mkdir create h).0
          ≡ first_error (entry_created mkdir ∷ entry_created create ∷ []))
      × (settle current_pid_exit (current_pid_init mkdir create h) ≡ h)
      × ((bare_init net h).0
          ≡ first_error (
              allocated net.alloc_0
              ∷ found net.register_0
              ∷ allocated net.alloc_1
              ∷ found net.register_1
              ∷ []))
      × (settle bare_exit (bare_init net h) ≡ h)
      × ((net_init net h).0
          ≡ first_error (
              allocated net.alloc_0
              ∷ found net.register_0
              ∷ allocated net.alloc_1
              ∷ found net.register_1
              ∷ []))
      × (settle net_exit (net_init net h) ≡ h)
registrations_settle env mkdir create net h fresh =
    let (c₀, c₁, c₂, c₃, c₄, c₅, c₆, c₇) = chardev_settles env h fresh in
    let (p₀, p₁, p₂, p₃, p₄, p₅) = proc_settles mkdir create h in
    let (b₀, b₁) = bare_init_settles net h in
    let (n₀, n₁) = net_init_settles net h in
    (c₀, c₁, c₂, c₃, c₄, c₅, c₆, c₇, p₀, p₁, p₂, p₃, p₄, p₅, b₀, b₁, n₀, n₁)
