-- ===== src/Ticks/Laws.antt =====
-- The array of ticks keeps its size, and stands for the queue of its first `array_end` values.
use ild.Base.{
  ℕ, zero, suc, ◌-◌, ◌≤◌, ◌<◌, ◌==◌, ◌≡◌, refl, sym, ap, ◌∙◌, true, false, get_or, List, [], ◌∷◌,
  arith, length, take, drop, length-set, length-take, length-drop, length-append, take-suc-set,
  take-nil, take-take-append,
}
use native.Mathlib.Numerals.{add-one}
use ild.Ticks.{Ticks, example_array_size, push_tick, pop_first, shift_down}
use ild.Ticks.Queue.{Queue, push, tail}

pub record IsValid (s : Ticks) : Type 0 where
  pub size : length s.array ≡ example_array_size
  pub within : s.array_end ≤ example_array_size

abbrev pub contents : Ticks → Queue
contents s = take s.array_end s.array

pub length-contents : {s : Ticks} → IsValid s → length (contents s) ≡ s.array_end
length-contents {s} v = omega (arith, length-take s.array_end s.array, v.size, v.within)

pub push_tick-IsValid : {s : Ticks} (j : ℕ) → IsValid s → IsValid (push_tick j s)
unfolding push_tick
push_tick-IsValid {s} j v = ground (arith, length-set s.array s.array_end j)

length-shift_down : (n : ℕ) (a : List ℕ) → n < length a → length (shift_down n a) ≡ length a
length-shift_down n a h = omega (
  arith,
  length-append (take n (drop 1 a)) (drop n a),
  length-take n (drop 1 a),
  length-drop 1 a,
  length-drop n a,
)

pub pop_first-IsValid : {s : Ticks} → IsValid s → IsValid (pop_first s)
unfolding pop_first
pop_first-IsValid {s} v = ground (arith, length-shift_down (s.array_end - 1) s.array)

-- The handler's write is a push on the bounded queue.
pub contents-push_tick :
    {s : Ticks} (j : ℕ) → IsValid s → contents (push_tick j s) ≡ push j (contents s)
unfolding push_tick
contents-push_tick {s} j v =
    ground (arith, length-contents v, take-suc-set s.array_end s.array j, add-one s.array_end)

tail-take-suc : (n : ℕ) (a : List ℕ) → tail (take (suc n) a) ≡ take n (drop 1 a)
tail-take-suc n [] = rw (take-nil n)
tail-take-suc n (x ∷ a) = refl

tail-take : (n : ℕ) (a : List ℕ) → tail (take n a) ≡ take (n - 1) (drop 1 a)
tail-take zero a = refl
tail-take (suc n) a = tail-take-suc n a ∙ ap (λ k. take k (drop 1 a)) (omega arith)

take-shift_down : (n : ℕ) (a : List ℕ) → n < length a → take n (shift_down n a) ≡ take n (drop 1 a)
take-shift_down n a h = take-take-append n (drop 1 a) (drop n a) (omega (arith, length-drop 1 a))

-- The removal of the first value is that of the queue.
pub contents-pop_first : {s : Ticks} → IsValid s → contents (pop_first s) ≡ tail (contents s)
unfolding pop_first
contents-pop_first {s} v =
    ground (arith, v, tail-take s.array_end s.array, take-shift_down (s.array_end - 1) s.array)

get_or-take :
    (n : ℕ) (a : List ℕ) → 0 < n → n ≤ length a → take n a ≡ get_or a 0 0 ∷ tail (take n a)
get_or-take zero a h k = absurd (omega arith)
get_or-take (suc n) [] h k = absurd (omega arith)
get_or-take (suc n) (x ∷ a) h k = refl

-- With a value in the array the queue is that value and what its removal leaves.
pub contents-cons :
    {s : Ticks}
    → IsValid s
    → (s.array_end == 0) ≡ false
    → contents s ≡ get_or s.array 0 0 ∷ contents (pop_first s)
contents-cons {s} v e =
    get_or-take s.array_end s.array (ground arith) (omega (arith, v.size, v.within))
    ∙ ap (λ q. get_or s.array 0 0 ∷ q) (sym (contents-pop_first v))

pub contents-nil : (s : Ticks) → (s.array_end == 0) ≡ true → contents s ≡ []
contents-nil s e = let z : s.array_end ≡ 0 = ground arith in ap (λ n. take n s.array) z
