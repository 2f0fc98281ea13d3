-- ===== src/Net/Xmit.antt =====
-- The transmission of example-VI-03.c.
use ild.Base.{
  ℕ, ◌-◌, ◌%◌, ℤ, pos, neg, Bool, if◌then◌else◌, ltb, List, ◌++◌, length, get_or, set, drop,
  replicate,
}
use ild.Kernel.Errno.{enomem}
use ild.Kernel.Copy.{overwrite}
use ild.Net.{
  Device, eth_zlen, eth_data_len, add_long, example_irq_rx_handler, example_irq_tx_handler,
}

-- A packet copied into `short_packet` if it is short.
abbrev pub pad : List ℕ → List ℕ
pad bytes =
    if ltb (length bytes) eth_zlen then bytes ++ replicate (eth_zlen - length bytes) 0 else bytes

-- `255 - *ptr` on a byte.
abbrev pub complement : ℕ → List ℕ → List ℕ
complement i bytes = set bytes i (255 - get_or bytes i 0)

-- The third byte of the two addresses, and then the checksum of the header, which starts at byte 14
-- and holds its own length in the low half of its first byte. `ip_fast_csum` gives the two bytes of
-- the checksum, as they are stored.
unfoldable pub rewrite : (List ℕ → ℕ → ℕ × ℕ) → List ℕ → List ℕ
rewrite ip_fast_csum bytes =
    let data_ = complement 32 (complement 28 bytes) in
    let cleared = set (set data_ 24 0) 25 0 in
    let check = ip_fast_csum (drop 14 cleared) (get_or cleared 14 0 % 16) in
    set (set cleared 24 check.0) 25 check.1

-- The result, the device that sends and the one that receives. `sk_b` is the number of the buffer
-- and `bytes` its contents, fewer than 2^31.
unfoldable pub example_start_xmit :
    (List ℕ → ℕ → ℕ × ℕ) → Bool → ℕ → List ℕ → Device → Device → ℤ × Device × Device
example_start_xmit ip_fast_csum allocated sk_b bytes src dst =
    let data_ = pad bytes in
    let sent = rewrite ip_fast_csum data_ in
    let dst₁ = record dst { data_ = overwrite sent dst.data_; data_len = length data_ } in
    let src₁ = record src {
      sk_b = sk_b;
      tx_packets = add_long src.tx_packets 1;
      tx_bytes = add_long src.tx_bytes (length data_);
    } in
    if ltb eth_data_len (length data_)
    then (neg enomem, src, dst)
    else (pos 0, example_irq_tx_handler src₁, example_irq_rx_handler allocated dst₁)
