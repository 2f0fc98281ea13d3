-- ===== src/Timer/Jitter.antt =====
-- The extremes of the period that exemples/03-api-du-noyau/example-III-04.c measures. Times are
-- 64-bit patterns, of numbers that are signed.
use ild.Base.{
  ℕ, ◌+◌, ◌-◌, ◌*◌, ◌%◌, ◌^◌, ◌≤◌, ◌<◌, ◌≡◌, refl, ◌∙◌, ap, Bool, true, false, ltb, ◌||◌,
  if◌then◌else◌, List, [], ◌∷◌, is_neg, i64, sub_u64, arith,
}

pub record Jitter : Type 0 where
  pub previous : ℕ
  pub elapsed_min : ℕ
  pub elapsed_max : ℕ

-- -1
abbrev pub unset : ℕ
unset = 2 ^ 64 - 1

abbrev pub start : Jitter
start = record { previous = unset; elapsed_min = unset; elapsed_max = unset }

-- `a < 0` and `ktime_compare(a, b) < 0`
abbrev pub negative : ℕ → Bool
negative a = is_neg (i64 a)

abbrev pub less : ℕ → ℕ → Bool
less a b = ltb ((a + 2 ^ 63) % 2 ^ 64) ((b + 2 ^ 63) % 2 ^ 64)

-- `now` is what `ktime_get_real_ns` returns.
unfoldable pub example_htimer_function : ℕ → Jitter → Jitter
example_htimer_function now j =
    let elapsed = sub_u64 now j.previous in
    let lower = negative j.elapsed_min || less elapsed j.elapsed_min in
    let higher = negative j.elapsed_max || less j.elapsed_max elapsed in
    if less 0 j.previous
    then record {
      previous = now;
      elapsed_min = if lower then elapsed else j.elapsed_min;
      elapsed_max = if higher then elapsed else j.elapsed_max;
    }
    else record j { previous = now }

unfoldable pub run : List ℕ → Jitter → Jitter
run [] j = j
run (now ∷ times) j = run times (example_htimer_function now j)

-- The nanoseconds of `ktime_set(0, 1000 * period_us)`, a product of the type `int`.
unfoldable pub example_period : ℕ → ℕ
example_period period_us = 1000 * period_us % 2 ^ 32

-- Times that do not go back, up to 2^63.
abbrev pub IsRising : ℕ → List ℕ → Type 0
IsRising t [] = t < 2 ^ 63
IsRising t (u ∷ us) = (t ≤ u) × IsRising u us

-- The least and the greatest of a number and of the differences of successive times.
abbrev pub least : ℕ → ℕ → List ℕ → ℕ
least m t [] = m
least m t (u ∷ us) = least (if ltb (u - t) m then u - t else m) u us

abbrev pub greatest : ℕ → ℕ → List ℕ → ℕ
greatest m t [] = m
greatest m t (u ∷ us) = greatest (if ltb m (u - t) then u - t else m) u us

rising_bound : (t : ℕ) (us : List ℕ) → IsRising t us → t < 2 ^ 63
rising_bound t [] h = h
rising_bound t (u ∷ us) h = omega (arith, h.0, rising_bound u us h.1)

less_small : (a b : ℕ) → a < 2 ^ 63 → b < 2 ^ 63 → less a b ≡ ltb a b
less_small a b h k = ground arith

negative_small : (a : ℕ) → a < 2 ^ 63 → negative a ≡ false
negative_small a h = ground arith

sub_small : (u t : ℕ) → t ≤ u → u < 2 ^ 63 → sub_u64 u t ≡ u - t
sub_small u t h k = omega arith

step_measures :
    (t u m n : ℕ)
    → 0 < t
    → t ≤ u
    → u < 2 ^ 63
    → m < 2 ^ 63
    → n < 2 ^ 63
    → example_htimer_function u (record { previous = t; elapsed_min = m; elapsed_max = n })
      ≡ record {
        previous = u;
        elapsed_min = if ltb (u - t) m then u - t else m;
        elapsed_max = if ltb n (u - t) then u - t else n;
      }
unfolding example_htimer_function
step_measures t u m n p h k a b =
    rw
      (
        sub_small u t h k,
        negative_small m a,
        negative_small n b,
        less_small 0 t (omega arith) (omega arith),
        less_small (u - t) m (omega arith) a,
        less_small n (u - t) b (omega arith),
      )
      (ground arith)

if_bound : (b : Bool) (m n : ℕ) → m < 2 ^ 63 → n < 2 ^ 63 → (if b then m else n) < 2 ^ 63
if_bound true m n h k = h
if_bound false m n h k = k

run_measures :
    (us : List ℕ) (t m n : ℕ)
    → 0 < t
    → IsRising t us
    → m < 2 ^ 63
    → n < 2 ^ 63
    → let j = run us (record { previous = t; elapsed_min = m; elapsed_max = n }) in
      (j.elapsed_min ≡ least m t us) × (j.elapsed_max ≡ greatest n t us)
unfolding run
run_measures [] t m n p h a b = (refl, refl)
run_measures (u ∷ us) t m n p h a b =
    let bound = rising_bound u us h.1 in
    let m' = if ltb (u - t) m then u - t else m in
    let n' = if ltb n (u - t) then u - t else n in
    let rest =
      run_measures us u m' n' (omega (arith, h.0)) h.1
        (if_bound (ltb (u - t) m) (u - t) m (omega (arith, bound)) a)
        (if_bound (ltb n (u - t)) (u - t) n (omega (arith, bound)) b) in
    let e = step_measures t u m n p h.0 bound a b in
    (ap (λ j. (run us j).elapsed_min) e ∙ rest.0, ap (λ j. (run us j).elapsed_max) e ∙ rest.1)

first_measure :
    (t u : ℕ)
    → 0 < t
    → t ≤ u
    → u < 2 ^ 63
    → example_htimer_function u (example_htimer_function t start)
      ≡ record { previous = u; elapsed_min = u - t; elapsed_max = u - t }
unfolding example_htimer_function
first_measure t u p h k =
    rw (sub_small u t h k, less_small 0 t (omega arith) (omega arith)) (ground arith)

-- With a clock that starts over 0 and is not set back, the callback holds, from its second run on,
-- the least and the greatest time between two runs of it.
pub run_extremes :
    (t u : ℕ) (us : List ℕ)
    → 0 < t
    → t ≤ u
    → IsRising u us
    → let j = run (t ∷ u ∷ us) start in
      (j.elapsed_min ≡ least (u - t) u us) × (j.elapsed_max ≡ greatest (u - t) u us)
unfolding run
run_extremes t u us p h r =
    let bound = rising_bound u us r in
    let rest =
      run_measures us u (u - t) (u - t) (omega arith) r (omega (arith, bound))
        (omega (arith, bound)) in
    let e = first_measure t u p h bound in
    (ap (λ j. (run us j).elapsed_min) e ∙ rest.0, ap (λ j. (run us j).elapsed_max) e ∙ rest.1)
