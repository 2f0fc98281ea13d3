-- ===== src/Net/Frames.antt =====
-- What the other device receives of a packet that is sent.
use ild.Base.{
  refl, zero, suc, set-set, ◌%◌, ℕ, ◌+◌, ◌-◌, ◌≤◌, ◌<◌, ◌≡◌, ap, sym, ◌∙◌, pos, true, false,
  if◌then◌else◌, ltb, ◌==◌, ◌||◌, List, [], ◌∷◌, ◌++◌, length, get_or, set, take, drop, replicate,
  length-set, length-append, length-replicate, get_or-set, get_or-set_other, get_or-append,
  get_or-padded, take-append, Bool-cases, inl, inr, arith,
}
use mathlib.Core.Path.{subst}
use ild.Kernel.Copy.{overwrite}
use ild.Net.{Device, eth_zlen, eth_data_len, example_irq_rx_handler}
use ild.Net.Xmit.{pad, complement, rewrite, example_start_xmit}

pub length-pad : (bytes : List ℕ) → length (pad bytes) ≡ eth_zlen + (length bytes - eth_zlen)
length-pad bytes = ground (
  arith,
  length-append bytes (replicate (eth_zlen - length bytes) 0),
  length-replicate {A = ℕ} (eth_zlen - length bytes) 0,
)

get_or-pad : (bytes : List ℕ) (i : ℕ) → get_or (pad bytes) i 0 ≡ get_or bytes i 0
get_or-pad bytes i = elim (Bool-cases (ltb (length bytes) eth_zlen)) [
  | inl e ↦ rw e (get_or-padded bytes (eth_zlen - length bytes) i 0)
  | inr e ↦ rw e
]

-- A byte as the other end sees it.
abbrev pub mirrored : ℕ → ℕ → ℕ
mirrored i byte = if i == 28 || i == 32 then 255 - byte else byte

get_or-complement :
    (n : ℕ) (bytes : List ℕ) (i : ℕ)
    → n < length bytes
    → get_or (complement n bytes) i 0
      ≡ (if i == n then 255 - get_or bytes i 0 else get_or bytes i 0)
get_or-complement n bytes i h = elim (Bool-cases (i == n)) [
  | inl e ↦
      let same : i ≡ n = ground arith in
      rw (e, same) (get_or-set bytes n (255 - get_or bytes n 0) 0 h)
  | inr e ↦ rw e (get_or-set_other bytes n i (255 - get_or bytes n 0) 0 e)
]

module _ (ip_fast_csum : List ℕ → ℕ → ℕ × ℕ) where
  length-rewrite : (bytes : List ℕ) → length (rewrite ip_fast_csum bytes) ≡ length bytes
  unfolding rewrite
  length-rewrite bytes =
      length-set (set _ 24 _) 25 _
      ∙ length-set _ 24 _
      ∙ length-set (set _ 24 _) 25 _
      ∙ length-set _ 24 _
      ∙ length-set (complement 28 bytes) 32 _
      ∙ length-set bytes 28 _

  get_or-rewrite :
      (bytes : List ℕ) (i : ℕ)
      → eth_zlen ≤ length bytes
      → (i == 24) ≡ false
      → (i == 25) ≡ false
      → get_or (rewrite ip_fast_csum bytes) i 0 ≡ mirrored i (get_or bytes i 0)
  unfolding rewrite
  get_or-rewrite bytes i long a b =
      get_or-set_other (set _ 24 _) 25 i _ 0 b
      ∙ get_or-set_other _ 24 i _ 0 a
      ∙ get_or-set_other (set _ 24 _) 25 i _ 0 b
      ∙ get_or-set_other _ 24 i _ 0 a
      ∙ get_or-complement 32 (complement 28 bytes) i
          (omega (arith, length-set bytes 28 (255 - get_or bytes 28 0)))
      ∙ rw (get_or-complement 28 bytes i (omega arith)) (ground arith)

-- What goes up on the other side, at the end of what it received.
take-overwrite : (sent dst : List ℕ) (n : ℕ) → length sent ≡ n → take n (overwrite sent dst) ≡ sent
take-overwrite sent dst n e = rw (sym e) (take-append sent (drop (length sent) dst))

abbrev pub last : Device → Device → List ℕ
last before after = get_or after.received (length before.received) []

module _ (ip_fast_csum : List ℕ → ℕ → ℕ × ℕ) (sk_b : ℕ) (bytes : List ℕ) (src dst : Device)
    (fits : length bytes ≤ eth_data_len) where
  fits-pad : ltb eth_data_len (length (pad bytes)) ≡ false
  fits-pad = ground (arith, length-pad bytes)

  received-xmit :
      (example_start_xmit ip_fast_csum true sk_b bytes src dst).2.received
      ≡ dst.received ++ rewrite ip_fast_csum (pad bytes) ∷ []
  unfolding example_start_xmit example_irq_rx_handler
  received-xmit = rw (
    fits-pad,
    take-overwrite (rewrite ip_fast_csum (pad bytes)) dst.data_ (length (pad bytes))
        (length-rewrite ip_fast_csum (pad bytes)),
  )

  accepted-xmit : (example_start_xmit ip_fast_csum true sk_b bytes src dst).0 ≡ pos 0
  unfolding example_start_xmit
  accepted-xmit = rw fits-pad

  last-xmit :
      last dst (example_start_xmit ip_fast_csum true sk_b bytes src dst).2
      ≡ rewrite ip_fast_csum (pad bytes)
  last-xmit =
      ap (λ r. get_or r (length dst.received) []) received-xmit
      ∙ get_or-append dst.received (rewrite ip_fast_csum (pad bytes)) []

  -- A packet of at most 1500 bytes that is sent is, when a buffer can be allocated, received once
  -- by the other device, padded with zeros to 60 bytes, and byte for byte the packet but for the
  -- checksum of its header and for the third byte of its two addresses, which is complemented.
  pub xmit-last :
      (i : ℕ)
      → (i == 24) ≡ false
      → (i == 25) ≡ false
      → let (r, src', dst') = example_start_xmit ip_fast_csum true sk_b bytes src dst in
        (r ≡ pos 0)
        × (dst'.received ≡ dst.received ++ last dst dst' ∷ [])
        × (length (last dst dst') ≡ eth_zlen + (length bytes - eth_zlen))
        × (get_or (last dst dst') i 0 ≡ mirrored i (get_or bytes i 0))
  xmit-last i a b = (
    accepted-xmit,
    received-xmit ∙ ap (λ r. dst.received ++ r ∷ []) (sym last-xmit),
    ap length last-xmit ∙ length-rewrite ip_fast_csum (pad bytes) ∙ length-pad bytes,
    ap (λ r. get_or r i 0) last-xmit
        ∙ get_or-rewrite ip_fast_csum (pad bytes) i (omega (arith, length-pad bytes)) a b
        ∙ ap (mirrored i) (get_or-pad bytes i),
  )

-- A checksum that is cleared again is as it was first cleared.
clear_again :
    (n : ℕ) (xs : List ℕ) (a b : ℕ)
    → set (set (set (set xs n a) (suc n) b) n 0) (suc n) 0 ≡ set (set xs n 0) (suc n) 0
clear_again n [] a b = refl
clear_again zero (x ∷ xs) a b = ap (λ r. 0 ∷ r) (set-set xs 0 b 0)
clear_again (suc n) (x ∷ xs) a b = ap (λ r. x ∷ r) (clear_again n xs a b)

abbrev pub without_checksum : List ℕ → List ℕ
without_checksum frame = set (set frame 24 0) 25 0

-- What `ip_fast_csum` gives for a frame's header, which starts at byte 14 and holds its own length,
-- with the checksum 0.
abbrev pub header_sum : (List ℕ → ℕ → ℕ × ℕ) → List ℕ → ℕ × ℕ
header_sum ip_fast_csum frame =
    ip_fast_csum (drop 14 (without_checksum frame)) (get_or frame 14 0 % 16)

pub record IsSummed (ip_fast_csum : List ℕ → ℕ → ℕ × ℕ) (frame : List ℕ) : Type 0 where
  pub first : get_or frame 24 0 ≡ (header_sum ip_fast_csum frame).0
  pub second : get_or frame 25 0 ≡ (header_sum ip_fast_csum frame).1

rewrite-IsSummed :
    (ip_fast_csum : List ℕ → ℕ → ℕ × ℕ) (bytes : List ℕ)
    → eth_zlen ≤ length bytes
    → IsSummed ip_fast_csum (rewrite ip_fast_csum bytes)
unfolding rewrite
rewrite-IsSummed ip_fast_csum bytes long =
    let data_ = complement 32 (complement 28 bytes) in
    let cleared = without_checksum data_ in
    let check = ip_fast_csum (drop 14 cleared) (get_or cleared 14 0 % 16) in
    let frame = set (set cleared 24 check.0) 25 check.1 in
    let n : length cleared ≡ length bytes =
      length-set (set data_ 24 0) 25 0
      ∙ length-set data_ 24 0
      ∙ length-set (complement 28 bytes) 32 _
      ∙ length-set bytes 28 _ in
    let same : without_checksum frame ≡ cleared =
      clear_again 24 cleared check.0 check.1 ∙ clear_again 24 data_ 0 0 in
    let ihl : get_or frame 14 0 ≡ get_or cleared 14 0 =
      get_or-set_other (set cleared 24 check.0) 25 14 check.1 0 refl
      ∙ get_or-set_other cleared 24 14 check.0 0 refl in
    let sum : header_sum ip_fast_csum frame ≡ check =
      λ i. ip_fast_csum (drop 14 (same i)) (ihl i % 16) in
    record {
      first =
          get_or-set_other (set cleared 24 check.0) 25 24 check.1 0 refl
          ∙ get_or-set cleared 24 check.0 0 (omega (arith, n))
          ∙ sym (ap (λ (c : ℕ × ℕ). c.0) sum);
      second =
          get_or-set (set cleared 24 check.0) 25 check.1 0
            (omega (arith, n, length-set cleared 24 check.0))
          ∙ sym (ap (λ (c : ℕ × ℕ). c.1) sum);
    }

-- A packet of at most 1500 bytes that is sent, when a buffer can be allocated, is accepted and
-- received once by the other device, padded with zeros to 60 bytes, and byte for byte the packet
-- but for bytes 28 and 32, the third ones of its two addresses, which are complemented, and for the
-- two bytes of its checksum, which are those that `ip_fast_csum` gives for the header that is
-- received. Sent back as it was received it comes back with every byte as it was but the two of the
-- checksum; past its end come zeros.
pub xmit-xmit :
    (ip_fast_csum : List ℕ → ℕ → ℕ × ℕ) (sk_b sk_b' : ℕ) (bytes : List ℕ) (a b : Device) (i : ℕ)
    → length bytes ≤ eth_data_len
    → (i == 24) ≡ false
    → (i == 25) ≡ false
    → get_or bytes i 0 ≤ 255
    → let (r, a₁, b₁) = example_start_xmit ip_fast_csum true sk_b bytes a b in
      let (r', b₂, a₂) = example_start_xmit ip_fast_csum true sk_b' (last b b₁) b₁ a₁ in
      (r ≡ pos 0)
      × (b₁.received ≡ b.received ++ last b b₁ ∷ [])
      × (length (last b b₁) ≡ eth_zlen + (length bytes - eth_zlen))
      × (get_or (last b b₁) i 0
          ≡ (if i == 28 || i == 32 then 255 - get_or bytes i 0 else get_or bytes i 0))
      × IsSummed ip_fast_csum (last b b₁)
      × (get_or (last a₁ a₂) i 0 ≡ get_or bytes i 0)
xmit-xmit ip_fast_csum sk_b sk_b' bytes a b i fits p q byte =
    let (r, a₁, b₁) = example_start_xmit ip_fast_csum true sk_b bytes a b in
    let (accepted, once, size, there) = xmit-last ip_fast_csum sk_b bytes a b fits i p q in
    let (_, _, _, back) =
      xmit-last ip_fast_csum sk_b' (last b b₁) b₁ a₁ (omega (arith, size)) i p q in
    let summed = rewrite-IsSummed ip_fast_csum (pad bytes) (omega (arith, length-pad bytes)) in
    (
      accepted,
      once,
      size,
      there,
      subst (IsSummed ip_fast_csum) (sym (last-xmit ip_fast_csum sk_b bytes a b fits)) summed,
      back ∙ ap (mirrored i) there ∙ ground arith,
    )
