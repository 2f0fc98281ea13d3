-- ===== src/Counter/Program.antt =====
-- solutions/set-step.c, the program that sets the step of tp-IV-03-counter-ioctl.c, and what a
-- caller that reads a counter again and again gets.
use ild.Base.{
  length, get_or, set, get_or-set, set-set, set-get_or, ℕ, zero, suc, ◌+◌, ◌*◌, ◌%◌, ◌^◌, ◌<◌, ◌≤◌,
  ◌≡◌, refl, sym, ap, ◌∙◌, List, [], ◌∷◌, ltb, if◌then◌else◌, not, Option, none, some, Bool, true,
  false, arith,
}
use ild.Text.{Answer}
use ild.Text.Cat.{cat}
use ild.Counter.{Command, counter_ioctl_magic, set_step_command, counter_text, add_int}
use ild.Counter.Single.{Counter, plain_read, writable_read, stepped_read, stepped_ioctl}
use ild.Counter.Several
use ild.Counter.Several.{Counters}
use ild.Counter.Reads.{cat-plain_read, cat-stepped_read, cat-counter_read}

-- COUNTER_SET_STEP of tp-IV-03-counter-ioctl.h.
abbrev pub counter_set_step : Command
counter_set_step = record { ioc_type = counter_ioctl_magic; ioc_nr = set_step_command }

-- Whether the program succeeds, and the device after it. `opens` tells whether the file can be
-- opened, `scanned` is what sscanf reads in the second argument, and `left` the bytes that the copy
-- of the ioctl leaves out. The program succeeds even if the ioctl fails.
unfoldable pub set_step_main : ℕ → Bool → Option ℕ → ℕ → Counter → Bool × Counter
set_step_main argc opens scanned left s =
    if ltb argc 3
    then (false, s)
    else (if not opens then (false, s) else elim scanned [
      | none ↦ (false, s)
      | some step ↦ (true, (stepped_ioctl counter_set_step step left s).1)
    ])

module _ {S : Type 0} where
  abbrev prepend : List ℕ → Option (List (List ℕ) × S) → Option (List (List ℕ) × S)
  prepend text none = none
  prepend text (some (texts, s)) = some (text ∷ texts, s)

  abbrev then_read :
      (S → Option (List (List ℕ) × S)) → Option (List ℕ × S) → Option (List (List ℕ) × S)
  then_read rest none = none
  then_read rest (some (text, s)) = prepend text (rest s)

  -- The texts of `n` readings of a device to the end, one after the other, and the device after
  -- them.
  abbrev pub readings : (S → ℕ → ℕ → ℕ → Answer S) → ℕ → ℕ → S → Option (List (List ℕ) × S)
  readings read max zero s = some ([], s)
  readings read max (suc n) s = then_read (λ t. readings read max n t) (cat read 128 max s 0 [])

-- The counter after `k` steps.
abbrev pub moved : ℕ → ℕ → ℕ → ℕ
moved counter step k = (counter + k * step) % 2 ^ 32

abbrev pub texts_from : ℕ → ℕ → ℕ → ℕ → List (List ℕ)
texts_from counter step k zero = []
texts_from counter step k (suc n) =
    counter_text (moved counter step k) ∷ texts_from counter step (k + 1) n

moved-suc : (counter step k : ℕ) → add_int (moved counter step k) step ≡ moved counter step (k + 1)
moved-suc counter step k = omega arith

-- A device whose reading to the end gives the text of a counter, and moves it by `step`.
module _ {S : Type 0} (read : S → ℕ → ℕ → ℕ → Answer S) (at : ℕ → S) (step max : ℕ)
    (reads : (c : ℕ)
      → cat read 128 max (at c) 0 [] ≡ some (counter_text c, at (add_int c step))) where
  readings-from :
      (n counter k : ℕ)
      → readings read max n (at (moved counter step k))
        ≡ some (texts_from counter step k n, at (moved counter step (k + n)))
  readings-from zero counter k =
      let same : k ≡ k + 0 = omega arith in ap (λ i. some ([], at (moved counter step i))) same
  readings-from (suc n) counter k =
      let text = counter_text (moved counter step k) in
      let next : k + 1 + n ≡ k + suc n = omega arith in
      ap (then_read (λ t. readings read max n t)) (reads (moved counter step k))
      ∙ ap (λ c. prepend text (readings read max n (at c))) (moved-suc counter step k)
      ∙ ap (prepend text) (readings-from n counter (k + 1))
      ∙ ap (λ i. some (text ∷ texts_from counter step (k + 1) n, at (moved counter step i))) next

  readings-moved :
      (n counter : ℕ)
      → counter < 2 ^ 32
      → readings read max n (at counter)
        ≡ some (texts_from counter step 0 n, at ((counter + n * step) % 2 ^ 32))
  readings-moved n counter small =
      let still : counter ≡ moved counter step 0 = omega arith in
      let all : 0 + n ≡ n = omega arith in
      ap (λ c. readings read max n (at c)) still
      ∙ readings-from n counter 0
      ∙ ap (λ i. some (texts_from counter step 0 n, at (moved counter step i))) all

-- One of the eight counters, with the value `c`.
abbrev pub with_counter : ℕ → Counters → ℕ → Counters
with_counter idx cs c = record cs { counter = set cs.counter idx c }

cat-with_counter :
    (max idx : ℕ) (cs : Counters) (c : ℕ)
    → 0 < max
    → idx < length cs.counter
    → cat (Several.counter_read idx) 128 max (with_counter idx cs c) 0 []
      ≡ some (counter_text c, with_counter idx cs (add_int c (get_or cs.step idx 0)))
cat-with_counter max idx cs c m known =
    cat-counter_read max idx (with_counter idx cs c) m
    ∙ ap
        (λ x. some (
          counter_text x,
          record cs { counter = set (set cs.counter idx c) idx (add_int x (get_or cs.step idx 0)) },
        ))
        (get_or-set cs.counter idx c 0 known)
    ∙ ap (λ l. some (counter_text c, record cs { counter = l }))
        (set-set cs.counter idx c (add_int c (get_or cs.step idx 0)))

set_step_main-sets :
    (argc step : ℕ) (s : Counter)
    → 3 ≤ argc
    → set_step_main argc true (some step) 0 s ≡ (true, record s { step = step })
unfolding set_step_main stepped_ioctl
set_step_main-sets argc step s h = let enough : ltb argc 3 ≡ false = ground arith in rw enough refl

-- Without a file that can be opened and a number the program fails and changes nothing.
set_step_main-fails :
    (argc left : ℕ) (opens : Bool) (scanned : Option ℕ) (s : Counter)
    → (set_step_main 2 opens scanned left s ≡ (false, s))
      × (set_step_main argc false scanned left s ≡ (false, s))
      × (set_step_main argc true none left s ≡ (false, s))
unfolding set_step_main
set_step_main-fails argc left opens scanned s = (refl, ground arith, ground arith)

-- Any number of readings of a counter to its end, whatever room of a byte or more is given to every
-- read, give the texts of the counter moved by 0, 1, 2 and more steps, modulo 2 ^ 32. The step is 1
-- for the counters of tp-IV-01-counter-read.c and tp-IV-02-counter-write.c, the number that the
-- program set-step.c was given for that of tp-IV-03-counter-ioctl.c, if the file could be opened
-- and the copy of the ioctl was made, and its own for each counter of tp-IV-04-several-counters.c,
-- where the others do not move.
pub counters-readings :
    (argc step max n counter idx : ℕ) (s : Counter) (cs : Counters)
    → 3 ≤ argc
    → 0 < max
    → counter < 2 ^ 32
    → s.counter < 2 ^ 32
    → idx < length cs.counter
    → get_or cs.counter idx 0 < 2 ^ 32
    → let c = get_or cs.counter idx 0 in
      let d = get_or cs.step idx 0 in
      (readings plain_read max n counter
        ≡ some (texts_from counter 1 0 n, (counter + n * 1) % 2 ^ 32))
      × (readings writable_read max n counter
          ≡ some (texts_from counter 1 0 n, (counter + n * 1) % 2 ^ 32))
      × ((set_step_main argc true (some step) 0 s).0 ≡ true)
      × (readings stepped_read max n (set_step_main argc true (some step) 0 s).1
          ≡ some (
            texts_from s.counter step 0 n,
            record { counter = (s.counter + n * step) % 2 ^ 32; step = step },
          ))
      × (readings (Several.counter_read idx) max n cs
          ≡ some (
            texts_from c d 0 n,
            record cs { counter = set cs.counter idx ((c + n * d) % 2 ^ 32) },
          ))
counters-readings argc step max n counter idx s cs three m p q known r =
    let set_ = set_step_main-sets argc step s three in
    let c = get_or cs.counter idx 0 in
    let d = get_or cs.step idx 0 in
    (
      readings-moved plain_read (λ x. x) 1 max (λ x. (cat-plain_read max x m).0) n counter p,
      readings-moved writable_read (λ x. x) 1 max (λ x. (cat-plain_read max x m).1) n counter p,
      ap (λ (b : Bool × Counter). b.0) set_,
      ap (λ (b : Bool × Counter). readings stepped_read max n b.1) set_
          ∙ readings-moved stepped_read (λ x. record { counter = x; step = step }) step max
              (λ x. cat-stepped_read max (record { counter = x; step = step }) m) n s.counter q,
      ap (λ l. readings (Several.counter_read idx) max n (record cs { counter = l }))
            (sym (set-get_or cs.counter idx 0))
          ∙ readings-moved (Several.counter_read idx) (with_counter idx cs) d max
              (λ x. cat-with_counter max idx cs x m known) n c r,
    )
