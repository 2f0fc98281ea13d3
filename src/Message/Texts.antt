-- ===== src/Message/Texts.antt =====
-- The texts of the table's rows, and what the methods' moves of rows do to them.
use ild.Base.{
  ℕ, suc, ◌+◌, ◌-◌, ◌≤◌, ◌<◌, ◌≡◌, refl, ap, sym, ◌∙◌, List, [], ◌∷◌, ◌++◌, map, append-nil,
  append_assoc, take-nil, ltb, length, get_or, set, take, drop, arith, take-suc-set,
  take-take-append, length-take, length-drop, Bool-cases, inl, inr,
}
use mathlib.Core.List.{map-append}
use ild.Kernel.Copy.{overwrite}
use ild.Counter.{c_string}
use ild.Message.{Messages, remove_first}
use ild.Message.Valid.{IsValid}
use ild.Message.Content.{c_string-append_text}
use ild.Message.Uses.{ended, texts}

pub length-texts : {s : Messages} → IsValid s → length (texts s) ≡ s.count
length-texts {s} v =
    length-map_rows (take s.count s.rows)
    ∙ omega (arith, length-take s.count s.rows, v.size, v.within)
  where
    length-map_rows : (rows : List (List ℕ)) → length (map (λ row. c_string row) rows) ≡ length rows
    length-map_rows [] = refl
    length-map_rows (row ∷ rows) = ap suc (length-map_rows rows)

abbrev pub stored : List ℕ → Messages → Messages
stored w s = record s {
  rows = set s.rows s.count (overwrite w (get_or s.rows s.count []));
  count = s.count + 1;
}

c_string-ended : (u row : List ℕ) → c_string u ≡ u → c_string (overwrite (ended u) row) ≡ u
c_string-ended u row clean =
    let rest = drop (length (ended u)) row in
    ap c_string (append_assoc u (0 ∷ []) rest)
    ∙ c_string-append_text u (0 ∷ rest) clean
    ∙ append-nil u

pub texts-stored :
    (u : List ℕ) {s : Messages}
    → IsValid s
    → s.count < 16
    → c_string u ≡ u
    → texts (stored (ended u) s) ≡ texts s ++ u ∷ []
texts-stored u {s} v h clean =
    let row = overwrite (ended u) (get_or s.rows s.count []) in
    let next : s.count + 1 ≡ suc s.count = omega arith in
    ap (λ n. map (λ row. c_string row) (take n (set s.rows s.count row))) next
    ∙ ap (map (λ row. c_string row)) (take-suc-set s.count s.rows row (omega (arith, v.size)))
    ∙ map-append (λ row. c_string row) (take s.count s.rows) (row ∷ [])
    ∙ ap (λ t. texts s ++ t ∷ []) (c_string-ended u (get_or s.rows s.count []) clean)

map-take-drop :
    (n : ℕ) (rows : List (List ℕ))
    → map (λ row. c_string row) (take n (drop 1 rows))
      ≡ drop 1 (map (λ row. c_string row) (take (suc n) rows))
map-take-drop n [] = rw (take-nil {A = List ℕ} n) refl
map-take-drop n (row ∷ rows) = refl

pub texts-remove_first :
    {s : Messages} → IsValid s → 0 < s.count → texts (remove_first s) ≡ drop 1 (texts s)
unfolding remove_first
texts-remove_first {s} v p =
    let n = s.count - 1 in
    let e : suc n ≡ s.count = omega arith in
    let rest =
      map-take-drop n s.rows ∙ ap (λ k. drop 1 (map (λ row. c_string row) (take k s.rows))) e in
    elim (Bool-cases (ltb 0 n)) [
      | inl more ↦
          let room : n ≤ length (drop 1 s.rows) =
            omega (arith, length-drop 1 s.rows, v.size, v.within) in
          rw (more, take-take-append n (drop 1 s.rows) (drop n s.rows) room) rest
      | inr last ↦
          let z : n ≡ 0 = ground arith in
          rw last (
            ap (λ k. map (λ row. c_string row) (take k s.rows)) z
            ∙ ap (λ k. map (λ row. c_string row) (take k (drop 1 s.rows))) (sym z)
            ∙ rest)
    ]
