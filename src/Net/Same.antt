-- ===== src/Net/Same.antt =====
-- The counters of example-VI-03.c change nothing else: forgetting them gives example-VI-02.c.
use ild.Base.{
  ℕ, ◌≡◌, refl, ap, ◌∙◌, ℤ, pos, Bool, true, false, if◌then◌else◌, List, [], ◌∷◌, Option, none,
  some, arith,
}
use ild.Net.{
  Device, example_open, example_stop, example_hard_header, example_irq_rx_handler,
  example_irq_tx_handler,
}
use ild.Net.Xmit.{example_start_xmit}
use ild.Net.Bare.{
  Bare, bare_rx_handler, bare_tx_handler, bare_open, bare_stop, bare_hard_header, bare_start_xmit,
}

abbrev pub without_stats : Device → Bare
without_stats d = record {
  sk_b = d.sk_b;
  data_ = d.data_;
  data_len = d.data_len;
  received = d.received;
  freed = d.freed;
  started = d.started;
  dev_addr = d.dev_addr;
}

-- What the kernel asks of one of the devices, the second one if `second`.
pub data Call : Type 0 where
  up : (second : Bool) → Call
  down : (second : Bool) → Call
  transmit : (second allocated : Bool) (sk_b : ℕ) (bytes : List ℕ) → Call

-- A pair of devices of either driver, and the device that a call is for.
abbrev on : {D : Type 0} → Bool → (D → D) → D × D → D × D
on second f (d₀, d₁) = if second then (d₀, f d₁) else (f d₀, d₁)

abbrev between : {D : Type 0} → Bool → (D → D → ℤ × D × D) → D × D → ℤ × (D × D)
between second f (d₀, d₁) =
    let (r₀, s₀, t₁) = f d₀ d₁ in
    let (r₁, s₁, t₀) = f d₁ d₀ in if second then (r₁, (t₀, s₁)) else (r₀, (s₀, t₁))

module _ (ip_fast_csum : List ℕ → ℕ → ℕ × ℕ) where
  unfoldable pub stats_call : Call → Device × Device → ℤ × (Device × Device)
  stats_call (up second) ds = (pos 0, on second (example_open second) ds)
  stats_call (down second) ds = (pos 0, on second example_stop ds)
  stats_call (transmit second allocated sk_b bytes) ds =
      between second (example_start_xmit ip_fast_csum allocated sk_b bytes) ds

  unfoldable pub bare_call : Call → Bare × Bare → ℤ × (Bare × Bare)
  bare_call (up second) ds = (pos 0, on second (bare_open second) ds)
  bare_call (down second) ds = (pos 0, on second bare_stop ds)
  bare_call (transmit second allocated sk_b bytes) ds =
      between second (bare_start_xmit ip_fast_csum allocated sk_b bytes) ds

-- The results of a sequence of calls, and the devices after it.
unfoldable pub run :
    {D : Type 0} → (Call → D × D → ℤ × (D × D)) → List Call → D × D → List ℤ × (D × D)
run call [] ds = ([], ds)
run call (c ∷ cs) ds =
    let (r, next) = call c ds in let (rs, last) = run call cs next in (r ∷ rs, last)

abbrev pub forget : Device × Device → Bare × Bare
forget (d₀, d₁) = (without_stats d₀, without_stats d₁)

module _ (ip_fast_csum : List ℕ → ℕ → ℕ × ℕ) where
  xmit-without_stats :
      (allocated : Bool) (sk_b : ℕ) (bytes : List ℕ) (src dst : Device)
      → let (r, src', dst') = example_start_xmit ip_fast_csum allocated sk_b bytes src dst in
        bare_start_xmit ip_fast_csum allocated sk_b bytes (without_stats src) (without_stats dst)
        ≡ (r, without_stats src', without_stats dst')
  unfolding example_start_xmit bare_start_xmit example_irq_rx_handler example_irq_tx_handler
      bare_rx_handler bare_tx_handler
  xmit-without_stats allocated sk_b bytes src dst = ground arith

  call-forget :
      (c : Call) (ds : Device × Device)
      → let (r, ds') = stats_call ip_fast_csum c ds in
        bare_call ip_fast_csum c (forget ds) ≡ (r, forget ds')
  unfolding stats_call bare_call example_open example_stop bare_open bare_stop
  call-forget (up true) (d₀, d₁) = refl
  call-forget (up false) (d₀, d₁) = refl
  call-forget (down true) (d₀, d₁) = refl
  call-forget (down false) (d₀, d₁) = refl
  call-forget (transmit true allocated sk_b bytes) (d₀, d₁) =
      ap (λ r. (r.0, (r.2, r.1))) (xmit-without_stats allocated sk_b bytes d₁ d₀)
  call-forget (transmit false allocated sk_b bytes) (d₀, d₁) =
      ap (λ r. (r.0, (r.1, r.2))) (xmit-without_stats allocated sk_b bytes d₀ d₁)

  -- Whatever sequence of openings, stops and transmissions the two drivers are given, they return
  -- the same results, and the devices of example-VI-02.c are those of example-VI-03.c without their
  -- counters.
  pub run-forget :
      (cs : List Call) (ds : Device × Device)
      → let (rs, ds') = run (stats_call ip_fast_csum) cs ds in
        run (bare_call ip_fast_csum) cs (forget ds) ≡ (rs, forget ds')
  unfolding run
  run-forget [] ds = refl
  run-forget (c ∷ cs) ds =
      let (r, next) = stats_call ip_fast_csum c ds in
      ap (λ p. (let (rs, last) = run (bare_call ip_fast_csum) cs p.1 in (p.0 ∷ rs, last)))
        (call-forget c ds)
      ∙ ap (λ p. (r ∷ p.0, p.1)) (run-forget cs next)

hard_header-without_stats :
    (type : ℕ) (dst_addr src_addr : Option (List ℕ)) (d : Device)
    → bare_hard_header type dst_addr src_addr (without_stats d)
      ≡ example_hard_header type dst_addr src_addr d
unfolding bare_hard_header example_hard_header
hard_header-without_stats type none none d = refl
hard_header-without_stats type none (some a) d = refl
hard_header-without_stats type (some a) none d = refl
hard_header-without_stats type (some a) (some b) d = refl
