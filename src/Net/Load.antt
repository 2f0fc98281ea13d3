-- ===== src/Net/Load.antt =====
-- The entry and exit points of example-VI-03.c.
use ild.Base.{ℤ, pos, neg, is_zero, Bool, not, if◌then◌else◌, ◌≡◌, [], ◌∷◌, arith}
use ild.Kernel.Errno.{enomem, enodev}
use ild.Kernel.Held.{Held, acquire, release, netdev, registered}
use ild.Gpio.Balance.{settle, first_error}

-- Whether each `alloc_netdev` succeeds, and what each `register_netdev` returns.
pub record Env : Type 0 where
  pub alloc_0 : Bool
  pub register_0 : ℤ
  pub alloc_1 : Bool
  pub register_1 : ℤ

unfoldable pub example_init : Env → Held → ℤ × Held
example_init env h =
    let h₁ = acquire (netdev 0) h in
    let h₂ = acquire (registered 0) h₁ in
    let h₃ = acquire (netdev 1) h₂ in
    if not env.alloc_0
    then (neg enomem, h)
    else (if not (is_zero env.register_0)
        then (neg enodev, release (netdev 0) h₁)
        else (if not env.alloc_1
            then (neg enomem, release (netdev 0) (release (registered 0) h₂))
            else (if not (is_zero env.register_1)
                then (
                  neg enodev,
                  release (netdev 0) (release (registered 0) (release (netdev 1) h₃)),
                )
                else (pos 0, acquire (registered 1) h₃))))

-- Both devices are there whenever the module was loaded.
unfoldable pub example_exit : Held → Held
example_exit h =
    release (netdev 0) (release (registered 0) (release (netdev 1) (release (registered 1) h)))

abbrev pub allocated : Bool → ℤ
allocated b = if b then pos 0 else neg enomem

abbrev pub found : ℤ → ℤ
found err = if is_zero err then pos 0 else neg enodev

-- The entry point returns -ENOMEM or -ENODEV for the first of its four calls that fails, and a
-- refusal to load, or loading and removal, leave exactly what was held before.
pub net_init_settles :
    (env : Env) (h : Held)
    → ((example_init env h).0
        ≡ first_error (
            allocated env.alloc_0
            ∷ found env.register_0
            ∷ allocated env.alloc_1
            ∷ found env.register_1
            ∷ []))
      × (settle example_exit (example_init env h) ≡ h)
unfolding example_init example_exit
net_init_settles env h = ground arith
