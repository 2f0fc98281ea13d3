-- ===== src/Net/Tests.antt =====
-- The network devices at small inputs.
use ild.Base.{
  length, pos, ◌∷◌, [], ℕ, ◌≡◌, refl, true, false, List, [], ◌∷◌, get_or, replicate, arith,
}
use ild.Kernel.Held.{Held}
use ild.Net.{Device, example_open, example_stop}
use ild.Net.Xmit.{example_start_xmit}
use ild.Net.Frames.{last, IsSummed, xmit-xmit}
use ild.Net.Stats.{Send, run}
use ild.Net.Setup.{pair, example_get_stats, Reports, run-get_stats}
use ild.Net.Same.{Call, up, transmit, down, stats_call, bare_call, forget, run-forget}
use ild.Net.Same

abbrev no_sum : List ℕ → ℕ → ℕ × ℕ
no_sum bytes ihl = (0, ihl)

abbrev idle : Device
idle = record {
  sk_b = 0;
  data_ = replicate 1500 0;
  data_len = 0;
  rx_packets = 0;
  rx_bytes = 0;
  tx_packets = 0;
  tx_bytes = 0;
  received = [];
  freed = [];
  started = false;
  dev_addr = replicate 6 0;
}

abbrev packet : List ℕ
packet = replicate 30 7

abbrev nothing : Held
nothing = record { resources = []; faults = 0 }

stops : (example_stop (example_open true idle)).started ≡ false
unfolding example_stop example_open
stops = refl

xmit-xmit_example :
    let (r, a₁, b₁) = example_start_xmit no_sum true 5 packet idle idle in
    let (r', b₂, a₂) = example_start_xmit no_sum true 6 (last idle b₁) b₁ a₁ in
    (r ≡ pos 0)
    × (b₁.received ≡ last idle b₁ ∷ [])
    × (length (last idle b₁) ≡ 60)
    × (get_or (last idle b₁) 28 0 ≡ 248)
    × IsSummed no_sum (last idle b₁)
    × (get_or (last a₁ a₂) 28 0 ≡ 7)
xmit-xmit_example = xmit-xmit no_sum 5 6 packet idle idle 28 (omega arith) refl refl (omega arith)

abbrev one_way : List Send
one_way =
    record { from_second = false; allocated = true; sk_b = 1; bytes = packet }
    ∷ record { from_second = true; allocated = false; sk_b = 2; bytes = packet }
    ∷ []

run-get_stats_example :
    let (d₀, d₁) = run no_sum one_way pair in
    Reports false one_way (example_get_stats d₀) (example_get_stats d₁)
    × Reports true one_way (example_get_stats d₁) (example_get_stats d₀)
run-get_stats_example = run-get_stats no_sum one_way

abbrev full : List ℕ
full = replicate 1500 7

abbrev calls : List Call
calls =
    up true ∷ up false ∷ transmit true true 9 packet ∷ transmit false true 10 full ∷ down true ∷ []

run-forget_example :
    let (rs, ds) = Same.run (stats_call no_sum) calls (idle, idle) in
    Same.run (bare_call no_sum) calls (forget (idle, idle)) ≡ (rs, forget ds)
run-forget_example = run-forget no_sum calls (idle, idle)
