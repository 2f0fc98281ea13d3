-- ===== src/Net/Setup.antt =====
-- `example_setup` and `example_get_stats` of exemples/06-driver-reseau/example-VI-03.c: the devices
-- as they are made, and the counters that the kernel asks for.
use ild.Base.{ℕ, ◌≡◌, refl, ap, ◌∙◌, Bool, true, false, List, [], replicate}
use native.Mathlib.Nat.{zero-add}
use ild.Net.{Device, eth_data_len, add_long}
use ild.Net.Stats.{Send, run, total, lost_packet, lost_length, run-Conserved}

-- A device as `alloc_netdev` gives it to `example_setup`: its memory is zero.
abbrev pub new_netdev : Device
new_netdev = record {
  sk_b = 0;
  data_ = [];
  data_len = 0;
  rx_packets = 0;
  rx_bytes = 0;
  tx_packets = 0;
  tx_bytes = 0;
  received = [];
  freed = [];
  started = false;
  dev_addr = replicate 6 0;
}

-- The private data is cleared. The tables of methods and the flag are not part of the state.
unfoldable pub example_setup : Device → Device
example_setup d = record d { sk_b = 0; data_ = replicate eth_data_len 0; data_len = 0 }

-- `struct net_device_stats`
pub record Counters : Type 0 where
  pub rx_packets : ℕ
  pub rx_bytes : ℕ
  pub tx_packets : ℕ
  pub tx_bytes : ℕ

unfoldable pub example_get_stats : Device → Counters
example_get_stats d = record {
  rx_packets = d.rx_packets;
  rx_bytes = d.rx_bytes;
  tx_packets = d.tx_packets;
  tx_bytes = d.tx_bytes;
}

-- The two devices of the module once it is loaded.
abbrev pub pair : Device × Device
pair = (example_setup new_netdev, example_setup new_netdev)

-- What one device says that it sent is what the other says that it received and what was lost.
pub record Reports (second : Bool) (ps : List Send) (src dst : Counters) : Type 0 where
  pub packets : src.tx_packets ≡ add_long dst.rx_packets (total (lost_packet second) ps)
  pub bytes_ : src.tx_bytes ≡ add_long dst.rx_bytes (total (lost_length second) ps)

-- From the loading of the module on, over any sequence of transmissions in both directions, what
-- example_get_stats says that a device has sent is what it says that the other has received and
-- what was lost on the way because no buffer could be allocated, in packets and in bytes, both
-- modulo 2^64.
pub run-get_stats :
    (ip_fast_csum : List ℕ → ℕ → ℕ × ℕ) (ps : List Send)
    → let (d₀, d₁) = run ip_fast_csum ps pair in
      Reports false ps (example_get_stats d₀) (example_get_stats d₁)
      × Reports true ps (example_get_stats d₁) (example_get_stats d₀)
unfolding example_get_stats example_setup
run-get_stats ip_fast_csum ps =
    let (there, back) =
      run-Conserved ip_fast_csum ps pair (λ b. 0) (λ b. 0)
        (record { packets_ = refl; bytes_ = refl }, record { packets_ = refl; bytes_ = refl }) in
    let (d₀, d₁) = run ip_fast_csum ps pair in
    (
      record {
        packets =
            there.packets_ ∙ ap (add_long d₁.rx_packets) (zero-add (total (lost_packet false) ps));
        bytes_ = there.bytes_ ∙ ap (add_long d₁.rx_bytes) (zero-add (total (lost_length false) ps));
      },
      record {
        packets =
            back.packets_ ∙ ap (add_long d₀.rx_packets) (zero-add (total (lost_packet true) ps));
        bytes_ = back.bytes_ ∙ ap (add_long d₀.rx_bytes) (zero-add (total (lost_length true) ps));
      },
    )
