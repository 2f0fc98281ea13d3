-- ===== src/Net/Stats.antt =====
-- The counters of the two devices over any sequence of transmissions.
use ild.Base.{
  ℕ, ◌+◌, ◌≡◌, Bool, true, false, not, ◌&&◌, if◌then◌else◌, leb, List, [], ◌∷◌, length, Bool-cases,
  inl, inr, arith,
}
use native.Mathlib.Nat.{add-zero, add_assoc}
use ild.Net.{Device, eth_data_len, add_long, example_irq_rx_handler, example_irq_tx_handler}
use ild.Net.Xmit.{pad, example_start_xmit}

-- A packet given to one of the devices: to the second if `from_second`.
pub record Send : Type 0 where
  pub from_second : Bool
  pub allocated : Bool
  pub sk_b : ℕ
  pub bytes : List ℕ

unfoldable pub send : (List ℕ → ℕ → ℕ × ℕ) → Send → Device × Device → Device × Device
send ip_fast_csum p (d₀, d₁) =
    let (r₀, s₀, t₁) = example_start_xmit ip_fast_csum p.allocated p.sk_b p.bytes d₀ d₁ in
    let (r₁, s₁, t₀) = example_start_xmit ip_fast_csum p.allocated p.sk_b p.bytes d₁ d₀ in
    if p.from_second then (t₀, s₁) else (s₀, t₁)

unfoldable pub run : (List ℕ → ℕ → ℕ × ℕ) → List Send → Device × Device → Device × Device
run ip_fast_csum [] ds = ds
run ip_fast_csum (p ∷ ps) ds = run ip_fast_csum ps (send ip_fast_csum p ds)

-- Whether the packet is accepted and then lost, for want of memory.
abbrev pub is_lost : Send → Bool
is_lost p = leb (length (pad p.bytes)) eth_data_len && not p.allocated

abbrev from : Bool → Send → Bool
from second p = if second then p.from_second else not p.from_second

-- The packets of a direction that are lost, and their bytes.
abbrev pub lost_packet : Bool → Send → ℕ
lost_packet second p = if from second p && is_lost p then 1 else 0

abbrev pub lost_length : Bool → Send → ℕ
lost_length second p = if from second p && is_lost p then length (pad p.bytes) else 0

abbrev pub total : (Send → ℕ) → List Send → ℕ
total size [] = 0
total size (p ∷ ps) = size p + total size ps

-- What one device sent is what the other received and so much more.
pub record Balanced (packets bytes : ℕ) (src dst : Device) : Type 0 where
  pub packets_ : src.tx_packets ≡ add_long dst.rx_packets packets
  pub bytes_ : src.tx_bytes ≡ add_long dst.rx_bytes bytes

-- Both directions, with what each lost so far.
abbrev pub Conserved : (Bool → ℕ) → (Bool → ℕ) → Device × Device → Type 0
Conserved packets bytes (d₀, d₁) =
    Balanced (packets false) (bytes false) d₀ d₁ × Balanced (packets true) (bytes true) d₁ d₀

module _ (ip_fast_csum : List ℕ → ℕ → ℕ × ℕ) where
  xmit-Balanced :
      (p : Send) (src dst : Device) (packets bytes : ℕ)
      → Balanced packets bytes src dst
      → let (r, src', dst') = example_start_xmit ip_fast_csum p.allocated p.sk_b p.bytes src dst in
        Balanced
          (packets + (if is_lost p then 1 else 0))
          (bytes + (if is_lost p then length (pad p.bytes) else 0))
          src'
          dst'
  unfolding example_start_xmit example_irq_rx_handler example_irq_tx_handler
  xmit-Balanced p src dst packets bytes h = record {
    packets_ = ground (arith, h.packets_);
    bytes_ = ground (arith, h.bytes_);
  }

  -- The other direction is not touched.
  xmit-Balanced_back :
      (p : Send) (src dst : Device) (packets bytes : ℕ)
      → Balanced packets bytes dst src
      → let (r, src', dst') = example_start_xmit ip_fast_csum p.allocated p.sk_b p.bytes src dst in
        Balanced packets bytes dst' src'
  unfolding example_start_xmit example_irq_rx_handler example_irq_tx_handler
  xmit-Balanced_back p src dst packets bytes h = record {
    packets_ = ground (arith, h.packets_);
    bytes_ = ground (arith, h.bytes_);
  }

  send-Conserved :
      (p : Send) (ds : Device × Device) (packets bytes : Bool → ℕ)
      → Conserved packets bytes ds
      → Conserved
          (λ b. packets b + lost_packet b p)
          (λ b. bytes b + lost_length b p)
          (send ip_fast_csum p ds)
  unfolding send
  send-Conserved p (d₀, d₁) packets bytes (h, k) = elim (Bool-cases p.from_second) [
    | inl e ↦
        rw (e, add-zero (packets false), add-zero (bytes false))
          (
            xmit-Balanced_back p d₁ d₀ (packets false) (bytes false) h,
            xmit-Balanced p d₁ d₀ (packets true) (bytes true) k,
          )
    | inr e ↦
        rw (e, add-zero (packets true), add-zero (bytes true))
          (
            xmit-Balanced p d₀ d₁ (packets false) (bytes false) h,
            xmit-Balanced_back p d₀ d₁ (packets true) (bytes true) k,
          )
  ]

  -- Over any sequence of transmissions in both directions, what a device has sent stays what the
  -- other has received and what was lost on the way because no buffer could be allocated, in
  -- packets and in bytes, both modulo 2^64.
  pub run-Conserved :
      (ps : List Send) (ds : Device × Device) (packets bytes : Bool → ℕ)
      → Conserved packets bytes ds
      → Conserved
          (λ b. packets b + total (lost_packet b) ps)
          (λ b. bytes b + total (lost_length b) ps)
          (run ip_fast_csum ps ds)
  unfolding run
  run-Conserved [] ds packets bytes h =
      rw
        (
          add-zero (packets false),
          add-zero (bytes false),
          add-zero (packets true),
          add-zero (bytes true),
        )
        h
  run-Conserved (p ∷ ps) ds packets bytes h =
      let step = send-Conserved p ds packets bytes h in
      rw
        (
          add_assoc (packets false),
          add_assoc (bytes false),
          add_assoc (packets true),
          add_assoc (bytes true),
        )
        at
        (run-Conserved ps (send ip_fast_csum p ds) (λ b. packets b + lost_packet b p)
          (λ b. bytes b + lost_length b p) step)
