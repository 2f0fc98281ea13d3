-- ===== src/Net.antt =====
-- The pair of linked network devices of exemples/06-driver-reseau/example-VI-03.c: what a device
-- keeps, and the methods but the transmission.
pub mod Xmit
pub mod Load
pub mod Frames
pub mod Stats
mod Setup
pub mod Header
pub mod Bare
pub mod First
mod Same
mod Tests
use ild.Base.{
  ℕ, ◌+◌, ◌%◌, ◌^◌, ◌/◌, ◌==◌, Bool, true, false, not, if◌then◌else◌, List, [], ◌∷◌, ◌++◌, Option,
  none, some, get_or, set, take,
}

abbrev pub eth_zlen : ℕ
eth_zlen = 60

abbrev pub eth_data_len : ℕ
eth_data_len = 1500

abbrev pub eth_hlen : ℕ
eth_hlen = 14

-- `sk_b`, `data` and `data_len` are the private data, the four counters those of `stats`,
-- `received` what went up through `netif_rx`, and `freed` the buffers given to `dev_kfree_skb`, by
-- their number.
pub record Device : Type 0 where
  pub sk_b : ℕ
  pub data_ : List ℕ
  pub data_len : ℕ
  pub rx_packets : ℕ
  pub rx_bytes : ℕ
  pub tx_packets : ℕ
  pub tx_bytes : ℕ
  pub received : List (List ℕ)
  pub freed : List ℕ
  pub started : Bool
  pub dev_addr : List ℕ

-- `unsigned long`
abbrev pub add_long : ℕ → ℕ → ℕ
add_long a b = (a + b) % 2 ^ 64

-- `allocated`: whether `dev_alloc_skb` succeeds. `netdev_priv` is never NULL.
unfoldable pub example_irq_rx_handler : Bool → Device → Device
example_irq_rx_handler allocated d = if not allocated then d else record d {
  rx_packets = add_long d.rx_packets 1;
  rx_bytes = add_long d.rx_bytes d.data_len;
  received = d.received ++ take d.data_len d.data_ ∷ [];
}

unfoldable pub example_irq_tx_handler : Device → Device
example_irq_tx_handler d = record d { freed = d.freed ++ d.sk_b ∷ [] }

-- `second`: whether the device is `net_dev_ex_1`.
unfoldable pub example_open : Bool → Device → Device
example_open second d = record d {
  started = true;
  dev_addr = 0x00 ∷ 0x12 ∷ 0x34 ∷ 0x56 ∷ 0x78 ∷ (if second then 0x01 else 0x00) ∷ [];
}

unfoldable pub example_stop : Device → Device
example_stop d = record d { started = false }

-- The fourteen bytes that go before the packet: the destination, whose last byte is flipped between
-- 0 and 1, the source, and the type in the order of the network. An address that is not given is
-- the device's own.
unfoldable pub example_hard_header : ℕ → Option (List ℕ) → Option (List ℕ) → Device → List ℕ
example_hard_header type dst_addr src_addr d =
    let source = address src_addr in
    let dest = address dst_addr in
    let flipped = set dest 5 (if get_or dest 5 0 == 0 then 1 else 0) in
    flipped ++ (source ++ (type / 256 % 256 ∷ type % 256 ∷ []))
  where
    address : Option (List ℕ) → List ℕ
    address none = take 6 d.dev_addr
    address (some bytes) = take 6 bytes
