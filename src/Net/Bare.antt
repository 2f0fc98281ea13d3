-- ===== src/Net/Bare.antt =====
-- The pair of devices of exemples/06-driver-reseau/example-VI-02.c, which has no statistics. Its
-- packets are padded and rewritten by the same code as those of example-VI-03.c.
use ild.Base.{
  ℕ, ◌%◌, ◌/◌, ◌==◌, ℤ, pos, neg, is_zero, Bool, true, false, not, if◌then◌else◌, ltb, List, [],
  ◌∷◌, ◌++◌, Option, none, some, length, get_or, set, take, ◌≡◌, arith,
}
use ild.Kernel.Errno.{enomem, enodev}
use ild.Kernel.Copy.{overwrite}
use ild.Kernel.Held.{Held, acquire, release, netdev, registered}
use ild.Net.{eth_data_len}
use ild.Net.Xmit.{pad, rewrite}
use ild.Net.Load.{Env, allocated, found}
use ild.Gpio.Balance.{settle, first_error}

-- `struct example_net_dev_priv`, and what the kernel sees of a device.
pub record Bare : Type 0 where
  pub sk_b : ℕ
  pub data_ : List ℕ
  pub data_len : ℕ
  pub received : List (List ℕ)
  pub freed : List ℕ
  pub started : Bool
  pub dev_addr : List ℕ

unfoldable pub bare_rx_handler : Bool → Bare → Bare
bare_rx_handler allocated d =
    if not allocated then d else record d { received = d.received ++ take d.data_len d.data_ ∷ [] }

unfoldable pub bare_tx_handler : Bare → Bare
bare_tx_handler d = record d { freed = d.freed ++ d.sk_b ∷ [] }

unfoldable pub bare_open : Bool → Bare → Bare
bare_open second d = record d {
  started = true;
  dev_addr = 0x00 ∷ 0x12 ∷ 0x34 ∷ 0x56 ∷ 0x78 ∷ (if second then 0x01 else 0x00) ∷ [];
}

unfoldable pub bare_stop : Bare → Bare
bare_stop d = record d { started = false }

unfoldable pub bare_hard_header : ℕ → Option (List ℕ) → Option (List ℕ) → Bare → List ℕ
bare_hard_header type dst_addr src_addr d =
    let source = address src_addr in
    let dest = address dst_addr in
    let flipped = set dest 5 (if get_or dest 5 0 == 0 then 1 else 0) in
    flipped ++ (source ++ (type / 256 % 256 ∷ type % 256 ∷ []))
  where
    address : Option (List ℕ) → List ℕ
    address none = take 6 d.dev_addr
    address (some bytes) = take 6 bytes

unfoldable pub bare_start_xmit :
    (List ℕ → ℕ → ℕ × ℕ) → Bool → ℕ → List ℕ → Bare → Bare → ℤ × Bare × Bare
bare_start_xmit ip_fast_csum allocated sk_b bytes src dst =
    let data_ = pad bytes in
    let sent = rewrite ip_fast_csum data_ in
    let dst₁ = record dst { data_ = overwrite sent dst.data_; data_len = length data_ } in
    let src₁ = record src { sk_b = sk_b } in
    if ltb eth_data_len (length data_)
    then (neg enomem, src, dst)
    else (pos 0, bare_tx_handler src₁, bare_rx_handler allocated dst₁)

unfoldable pub bare_init : Env → Held → ℤ × Held
bare_init env h =
    let h₁ = acquire (netdev 0) h in
    let h₂ = acquire (registered 0) h₁ in
    let h₃ = acquire (netdev 1) h₂ in
    if not env.alloc_0
    then (neg enomem, h)
    else (if not (is_zero env.register_0)
        then (neg enodev, release (netdev 0) h₁)
        else (if not env.alloc_1
            then (neg enomem, release (netdev 0) (release (registered 0) h₂))
            else (if not (is_zero env.register_1)
                then (
                  neg enodev,
                  release (netdev 0) (release (registered 0) (release (netdev 1) h₃)),
                )
                else (pos 0, acquire (registered 1) h₃))))

unfoldable pub bare_exit : Held → Held
bare_exit h =
    release (netdev 0) (release (registered 0) (release (netdev 1) (release (registered 1) h)))

pub bare_init_settles :
    (env : Env) (h : Held)
    → ((bare_init env h).0
        ≡ first_error (
            allocated env.alloc_0
            ∷ found env.register_0
            ∷ allocated env.alloc_1
            ∷ found env.register_1
            ∷ []))
      × (settle bare_exit (bare_init env h) ≡ h)
unfolding bare_init bare_exit
bare_init_settles env h = ground arith
