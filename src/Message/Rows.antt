-- ===== src/Message/Rows.antt =====
-- Rows of 32 bytes that end in a NUL, and what the methods' moves of rows and bytes keep of them.
use ild.Base.{
  ℕ, zero, suc, ◌+◌, ◌-◌, ◌*◌, ◌≤◌, ◌<◌, ◌≡◌, refl, ap, ◌∙◌, List, [], ◌∷◌, ◌++◌, ◌==◌, length,
  get_or, set, take, drop, length-append, length-drop, Bool-cases, inl, inr, arith,
}
use ild.Kernel.Copy.{overwrite}
use ild.Counter.{c_string}
use ild.Message.{flat, strlen, msg_lg_max}

pub record IsRow (row : List ℕ) : Type 0 where
  pub size : length row ≡ msg_lg_max
  pub ended : get_or row 31 0 ≡ 0

-- All the rows of a list.
abbrev pub AllRows : List (List ℕ) → Type 0
AllRows [] = Unit {0}
AllRows (row ∷ rows) = IsRow row × AllRows rows

pub AllRows-append : (xs ys : List (List ℕ)) → AllRows xs → AllRows ys → AllRows (xs ++ ys)
AllRows-append [] ys h k = k
AllRows-append (x ∷ xs) ys h k = (h.0, AllRows-append xs ys h.1 k)

pub AllRows-take : (n : ℕ) (xs : List (List ℕ)) → AllRows xs → AllRows (take n xs)
AllRows-take zero xs h = tt
AllRows-take (suc n) [] h = tt
AllRows-take (suc n) (x ∷ xs) h = (h.0, AllRows-take n xs h.1)

pub AllRows-drop : (n : ℕ) (xs : List (List ℕ)) → AllRows xs → AllRows (drop n xs)
AllRows-drop zero xs h = h
AllRows-drop (suc n) [] h = tt
AllRows-drop (suc n) (x ∷ xs) h = AllRows-drop n xs h.1

pub AllRows-set :
    (xs : List (List ℕ)) (i : ℕ) (row : List ℕ) → AllRows xs → IsRow row → AllRows (set xs i row)
AllRows-set [] i row h r = tt
AllRows-set (x ∷ xs) zero row h r = (r, h.1)
AllRows-set (x ∷ xs) (suc i) row h r = (h.0, AllRows-set xs i row h.1 r)

pub AllRows-get_or :
    (xs : List (List ℕ)) (i : ℕ) → AllRows xs → i < length xs → IsRow (get_or xs i [])
AllRows-get_or [] i h k = absurd (omega arith)
AllRows-get_or (x ∷ xs) zero h k = h.0
AllRows-get_or (x ∷ xs) (suc i) h k = AllRows-get_or xs i h.1 (omega arith)

pub length-flat : (xs : List (List ℕ)) → AllRows xs → length (flat xs) ≡ 32 * length xs
length-flat [] h = refl
length-flat (x ∷ xs) h = omega (arith, length-append x (flat xs), h.0.size, length-flat xs h.1)

get_or-append : (xs ys : List ℕ) (i : ℕ) → get_or (xs ++ ys) (length xs + i) 0 ≡ get_or ys i 0
get_or-append [] ys i = ap (λ k. get_or ys k 0) (omega arith)
get_or-append (x ∷ xs) ys i =
    let e : suc (length xs) + i ≡ suc (length xs + i) = omega arith in rw e (get_or-append xs ys i)

get_or-drop : (n i : ℕ) (xs : List ℕ) → get_or (drop n xs) i 0 ≡ get_or xs (n + i) 0
get_or-drop zero i xs = ap (λ k. get_or xs k 0) (omega arith)
get_or-drop (suc n) i [] = refl
get_or-drop (suc n) i (x ∷ xs) =
    let e : suc n + i ≡ suc (n + i) = omega arith in rw e (get_or-drop n i xs)

-- Fewer than 32 bytes written over the start of a row leave its last byte.
pub overwrite-IsRow :
    (bytes row : List ℕ) → length bytes < 32 → IsRow row → IsRow (overwrite bytes row)
overwrite-IsRow bytes row h r = record {
  size = omega (
    arith,
    length-append bytes (drop (length bytes) row),
    length-drop (length bytes) row,
    r.size,
  );
  ended =
      let e : 31 ≡ length bytes + (31 - length bytes) = omega arith in
      let f : length bytes + (31 - length bytes) ≡ 31 = omega arith in
      ap (λ k. get_or (overwrite bytes row) k 0) e
      ∙ get_or-append bytes (drop (length bytes) row) (31 - length bytes)
      ∙ get_or-drop (length bytes) (31 - length bytes) row
      ∙ ap (λ k. get_or row k 0) f
      ∙ r.ended;
}

-- A text that meets a NUL within a row goes no further.
pub c_string-append :
    (i : ℕ) (xs ys : List ℕ)
    → i < length xs
    → get_or xs i 0 ≡ 0
    → (c_string (xs ++ ys) ≡ c_string xs) × (strlen xs ≤ i)
c_string-append i [] ys h e = absurd (omega arith)
c_string-append zero (x ∷ xs) ys h e = rw e (refl, omega arith)
c_string-append (suc i) (x ∷ xs) ys h e = elim (Bool-cases (x == 0)) [
  | inl z ↦ rw z (refl, omega arith)
  | inr z ↦
      let (same, short) = c_string-append i xs ys (omega arith) e in
      rw z (ap (λ r. x ∷ r) same, omega arith)
]

-- The first message of a table is the text of its first row, of at most 31 bytes.
pub strlen-flat :
    (row : List ℕ) (rows : List (List ℕ))
    → IsRow row
    → (c_string (flat (row ∷ rows)) ≡ c_string row) × (strlen row ≤ 31)
strlen-flat row rows r = c_string-append 31 row (flat rows) (omega (arith, r.size)) r.ended
