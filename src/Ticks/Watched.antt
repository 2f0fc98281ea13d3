-- ===== src/Ticks/Watched.antt =====
-- What test-select.c does with devices of example-select.c.
use ild.Base.{
  ℕ, ◌+◌, ◌≡◌, refl, sym, ap, ◌∙◌, pos, Bool, true, false, List, [], ◌∷◌, map, Option, none, some,
  ltb, ◌==◌, ◌&&◌, if◌then◌else◌, length, get_or, Bool-cases, inl, inr, arith,
}
use ild.Kernel.Copy.{reply}
use ild.Ticks.{Ticks, returned, k_buffer, pop_first, spin_lock, spin_unlock, read_loop}
use ild.Ticks.Select.{example_read, example_poll, check_and_take}
use ild.Ticks.Laws.{
  IsValid, contents, contents-cons, contents-nil, pop_first-IsValid, contents-pop_first,
}
use ild.Ticks.Refine.{relock}
use ild.Ticks.Queue
use ild.Ticks.Queue.{Queue}
use ild.Ticks.Program.{line}
use ild.Ticks.Turns.{k_buffer-short, fits, sum-positive}
use ild.Ticks.Watch.{none_set, written, read_one, read_set, first}
use ild.Ticks.Delivered.{AllValid}

-- A device after a turn: its first value is gone.
abbrev pub after_turn : Ticks → Ticks
after_turn d =
    if d.array_end == 0 then spin_unlock d else spin_unlock (pop_first (spin_lock (spin_unlock d)))

pub after_turn-IsValid : {d : Ticks} → IsValid d → IsValid (after_turn d)
after_turn-IsValid {d} v = elim (Bool-cases (d.array_end == 0)) [
  | inl e ↦ rw e (relock false v)
  | inr e ↦ rw e (relock false (pop_first-IsValid (relock true v)))
]

pub contents-after_turn :
    {d : Ticks} → IsValid d → contents (after_turn d) ≡ Queue.tail (contents d)
contents-after_turn {d} v = elim (Bool-cases (d.array_end == 0)) [
  | inl e ↦ rw (e, contents-nil d e)
  | inr e ↦ rw e (contents-pop_first (relock true v))
]

read_value :
    (d : Ticks)
    → (d.array_end == 0) ≡ false
    → example_read false [] 4096 0 d
      ≡ returned
          (reply (pos (length (k_buffer (get_or d.array 0 0)) + 1)) (line (get_or d.array 0 0)))
          (spin_unlock (pop_first (spin_lock d)))
unfolding example_read read_loop check_and_take
read_value d e =
    let x = get_or d.array 0 0 in rw (e, fits (length (k_buffer x)) (k_buffer-short x)) refl

positive : (n : ℕ) → (n == 0) ≡ false → ltb 0 n ≡ true
positive n e = ground arith

written-line :
    (x : ℕ) (d : Ticks)
    → written (returned (reply (pos (length (k_buffer x) + 1)) (line x)) d)
      ≡ some (some (line x), d)
unfolding written
written-line x d = rw (sum-positive (length (k_buffer x))) refl

poll-idle : (d : Ticks) → (d.array_end == 0) ≡ true → example_poll d ≡ (0, spin_unlock d)
unfolding example_poll
poll-idle d e = let none : ltb 0 d.array_end ≡ false = ground arith in rw none refl

poll-ready : (d : Ticks) → (d.array_end == 0) ≡ false → example_poll d ≡ (65, spin_unlock d)
unfolding example_poll
poll-ready d e = rw (positive d.array_end e) refl

read_one-turn :
    {d : Ticks}
    → IsValid d
    → read_one (example_poll d).0 (example_poll d).1 ≡ some (first (contents d), after_turn d)
unfolding read_one
read_one-turn {d} v = elim (Bool-cases (d.array_end == 0)) [
  | inl e ↦ rw (poll-idle d e, e, contents-nil d e) refl
  | inr e ↦
      rw (poll-ready d e, contents-cons v e, read_value (spin_unlock d) e, e)
        (written-line (get_or d.array 0 0) (spin_unlock (pop_first (spin_lock (spin_unlock d)))))
]

-- The masks of devices whose files `select` all looks at.
abbrev pub all_masks : List Ticks → List ℕ
all_masks ds = map (λ d. (example_poll d).0) ds

abbrev pub all_polled : List Ticks → List Ticks
all_polled ds = map (λ d. (example_poll d).1) ds

read_set-cons :
    (m : ℕ) (d : Ticks) (ms : List ℕ) (ds : List Ticks) {out : Option (List ℕ)} {d' : Ticks}
    {outs : List (Option (List ℕ))} {ds' : List Ticks}
    → read_one m d ≡ some (out, d')
    → read_set ms ds ≡ some (outs, ds')
    → read_set (m ∷ ms) (d ∷ ds) ≡ some (out ∷ outs, d' ∷ ds')
unfolding read_set
read_set-cons m d ms ds one rest = rw (one, rest, read_set) refl

pub read_set-turn :
    (ds : List Ticks)
    → AllValid ds
    → read_set (all_masks ds) (all_polled ds)
      ≡ some (map first (map (λ d. contents d) ds), map after_turn ds)
unfolding read_set
read_set-turn [] v = refl
read_set-turn (d ∷ ds) v =
    read_set-cons (example_poll d).0 (example_poll d).1 (all_masks ds) (all_polled ds)
      (read_one-turn v.0) (read_set-turn ds v.1)

no_mask : (d : Ticks) → ((example_poll d).0 == 0) ≡ true → (d.array_end == 0) ≡ true
no_mask d e = elim (Bool-cases (d.array_end == 0)) [
  | inl z ↦ z
  | inr z ↦ absurd (ground (arith, sym e ∙ ap (λ r. r.0 == 0) (poll-ready d z)))
]

both : (a b : Bool) → (a && b) ≡ true → (a ≡ true) × (b ≡ true)
both true b e = (refl, e)
both false b e = absurd (ground arith)

pub none_set-turn :
    (ds : List Ticks)
    → none_set (all_masks ds) ≡ true
    → ◌≡◌ {A = List (Option (List ℕ)) × List Ticks}
        (map (λ m. none) (all_masks ds), all_polled ds)
        (map first (map (λ d. contents d) ds), map after_turn ds)
none_set-turn [] e = refl
none_set-turn (d ∷ ds) e =
    let (here, rest) = both ((example_poll d).0 == 0) (none_set (all_masks ds)) e in
    let z = no_mask d here in
    let pair = none_set-turn ds rest in
    let one : ◌≡◌ {A = Option (List ℕ) × Ticks} (none, (example_poll d).1)
        (first (contents d), after_turn d) =
      rw (poll-idle d z, contents-nil d z, z) refl in
    λ i. ((one i).0 ∷ (pair i).0, (one i).1 ∷ (pair i).1)
