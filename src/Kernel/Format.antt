-- ===== src/Kernel/Format.antt =====
-- `snprintf` with a decimal conversion, as far as the drivers use it: texts are lists of bytes.
use ild.Base.{
  ◌==◌, ◌≡◌, ◌++◌, drop, false, Bool-cases, inl, inr, ℕ, zero, suc, ◌+◌, ◌-◌, ◌/◌, ◌%◌, ◌^◌, ◌≤◌,
  ◌<◌, List, [], ◌∷◌, ltb, if◌then◌else◌, length, take, arith,
}

-- The digits of `n` before `acc`, at most as many as the fuel.
print_digits : ℕ → ℕ → List ℕ → List ℕ
print_digits zero n acc = acc
print_digits (suc fuel) n acc =
    let rest = print_digits fuel (n / 10) ((b'0' + n % 10) ∷ acc) in
    if ltb n 10 then (b'0' + n) ∷ acc else rest

-- A 64-bit number has at most twenty digits.
unfoldable pub decimal : ℕ → List ℕ
unfolding print_digits
decimal n = print_digits 20 n []

-- `%d` and `%ld` at a 32-bit and a 64-bit pattern.
unfoldable pub show_d : ℕ → List ℕ
show_d w = if ltb w (2 ^ 31) then decimal w else b'-' ∷ decimal (2 ^ 32 - w)

unfoldable pub show_ld : ℕ → List ℕ
show_ld w = if ltb w (2 ^ 63) then decimal w else b'-' ∷ decimal (2 ^ 64 - w)

-- The text that `snprintf` leaves in a buffer of `size` bytes, without its final NUL.
abbrev pub snprintf : ℕ → List ℕ → List ℕ
snprintf size text = take (size - 1) text

abbrev pub newline : List ℕ
newline = b'\n' ∷ []

length-print_digits :
    (fuel n : ℕ) (acc : List ℕ)
    → (length acc ≤ length (print_digits fuel n acc))
      × (length (print_digits fuel n acc) ≤ fuel + length acc)
unfolding print_digits
length-print_digits zero n acc = omega arith
length-print_digits (suc fuel) n acc =
    ground (arith, length-print_digits fuel (n / 10) ((b'0' + n % 10) ∷ acc))

pub length-decimal : (n : ℕ) → (0 < length (decimal n)) × (length (decimal n) ≤ 20)
unfolding decimal print_digits
length-decimal n = ground (arith, length-print_digits 19 (n / 10) ((b'0' + n % 10) ∷ []))

pub length-show_d : (w : ℕ) → (0 < length (show_d w)) × (length (show_d w) ≤ 21)
unfolding show_d
length-show_d w = ground (arith, length-decimal w, length-decimal (2 ^ 32 - w))

pub length-show_ld : (w : ℕ) → (0 < length (show_ld w)) × (length (show_ld w) ≤ 21)
unfolding show_ld
length-show_ld w = ground (arith, length-decimal w, length-decimal (2 ^ 64 - w))

-- A text without a NUL.
abbrev pub IsClean : List ℕ → Type 0
IsClean [] = Unit {0}
IsClean (c ∷ cs) = ((c == 0) ≡ false) × IsClean cs

print_digits-IsClean : (fuel n : ℕ) (acc : List ℕ) → IsClean acc → IsClean (print_digits fuel n acc)
unfolding print_digits
print_digits-IsClean zero n acc h = h
print_digits-IsClean (suc fuel) n acc h = elim (Bool-cases (ltb n 10)) [
  | inl e ↦ rw e (ground arith, h)
  | inr e ↦ rw e (print_digits-IsClean fuel (n / 10) ((b'0' + n % 10) ∷ acc) (ground arith, h))
]

pub decimal-IsClean : (n : ℕ) → IsClean (decimal n)
unfolding decimal
decimal-IsClean n = print_digits-IsClean 20 n [] tt

pub append-IsClean : (xs ys : List ℕ) → IsClean xs → IsClean ys → IsClean (xs ++ ys)
append-IsClean [] ys h k = k
append-IsClean (x ∷ xs) ys h k = (h.0, append-IsClean xs ys h.1 k)

pub take-IsClean : (n : ℕ) (xs : List ℕ) → IsClean xs → IsClean (take n xs)
take-IsClean zero xs h = tt
take-IsClean (suc n) [] h = tt
take-IsClean (suc n) (x ∷ xs) h = (h.0, take-IsClean n xs h.1)

pub tail-IsClean : (xs : List ℕ) → IsClean xs → IsClean (drop 1 xs)
tail-IsClean [] h = tt
tail-IsClean (x ∷ xs) h = h.1
