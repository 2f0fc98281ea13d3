-- ===== src/Net/Header.antt =====
-- The header that example_hard_header builds, and the room that it takes.
use ild.Base.{
  ℕ, ◌+◌, ◌*◌, ◌^◌, ◌<◌, ◌≡◌, refl, neg, Bool, true, false, not, none, List, ◌++◌, length,
  length-append, get_or, take, drop, arith, ltb,
}
use ild.Kernel.Errno.{enomem}
use ild.Net.{Device, eth_data_len, eth_hlen, example_open, example_hard_header}
use ild.Net.Xmit.{pad, example_start_xmit}
use ild.Net.Frames.{length-pad}

-- Once the devices are open, a header without addresses goes from a device to the other one:
-- fourteen bytes, with the other's address first, its own next, and the two bytes of the type.
pub hard_header-open :
    (second : Bool) (type : ℕ) (d peer : Device)
    → type < 2 ^ 16
    → let opened = example_open second d in
      let header = example_hard_header type none none opened in
      (length header ≡ eth_hlen)
      × (take 6 header ≡ (example_open (not second) peer).dev_addr)
      × (take 6 (drop 6 header) ≡ opened.dev_addr)
      × (256 * get_or header 12 0 + get_or header 13 0 ≡ type)
unfolding example_hard_header example_open
hard_header-open false type d peer h = (refl, refl, refl, ground arith)
hard_header-open true type d peer h = (refl, refl, refl, ground arith)

-- A packet of more than 1486 bytes, though the devices take 1500, is refused once its header is
-- before it: -ENOMEM is returned, and nothing is sent, counted or freed.
pub xmit_full_frame :
    (ip_fast_csum : List ℕ → ℕ → ℕ × ℕ) (allocated second : Bool) (sk_b type : ℕ) (packet : List ℕ)
    → (d dst : Device) → eth_data_len < length packet + eth_hlen
    → let src = example_open second d in
      let header = example_hard_header type none none src in
      example_start_xmit ip_fast_csum allocated sk_b (header ++ packet) src dst
      ≡ (neg enomem, src, dst)
unfolding example_start_xmit example_hard_header example_open
xmit_full_frame ip_fast_csum allocated false sk_b type packet d dst h =
    let header = example_hard_header type none none (example_open false d) in
    let long : ltb eth_data_len (length (pad (header ++ packet))) ≡ true =
      ground (arith, length-pad (header ++ packet), length-append header packet) in
    rw long
xmit_full_frame ip_fast_csum allocated true sk_b type packet d dst h =
    let header = example_hard_header type none none (example_open true d) in
    let long : ltb eth_data_len (length (pad (header ++ packet))) ≡ true =
      ground (arith, length-pad (header ++ packet), length-append header packet) in
    rw long

-- Once the devices are open, a header without addresses goes from a device to the other one:
-- fourteen bytes, with the other's address first, its own next, and the two bytes of the type. With
-- that header before it, a packet of more than 1486 bytes, though the devices take 1500, is
-- refused: -ENOMEM is returned, and nothing is sent, counted or freed.
full_frame_refused :
    (ip_fast_csum : List ℕ → ℕ → ℕ × ℕ) (allocated second : Bool) (sk_b type : ℕ) (packet : List ℕ)
    (d peer : Device)
    → type < 2 ^ 16
    → eth_data_len < length packet + eth_hlen
    → let opened = example_open second d in
      let header = example_hard_header type none none opened in
      (length header ≡ eth_hlen)
      × (take 6 header ≡ (example_open (not second) peer).dev_addr)
      × (take 6 (drop 6 header) ≡ opened.dev_addr)
      × (256 * get_or header 12 0 + get_or header 13 0 ≡ type)
      × (example_start_xmit ip_fast_csum allocated sk_b (header ++ packet) opened peer
          ≡ (neg enomem, opened, peer))
full_frame_refused ip_fast_csum allocated second sk_b type packet d peer t h =
    let (a, b, c, e) = hard_header-open second type d peer t in
    (a, b, c, e, xmit_full_frame ip_fast_csum allocated second sk_b type packet d peer h)
