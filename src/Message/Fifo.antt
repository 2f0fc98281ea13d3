-- ===== src/Message/Fifo.antt =====
-- The device of tp-V-01-message-read-write.c as a queue of texts.
use ild.Base.{
  ℕ, zero, suc, ◌-◌, ◌≤◌, ◌<◌, ◌≡◌, refl, ap, sym, ◌∙◌, pos, neg, true, false, List, [], ◌∷◌, map,
  some, ◌==◌, ltb, leb, length, get_or, take, drop, take_all, arith, length-append, Bool-cases, inl,
  inr,
}
use ild.Kernel.Errno.{enomem}
use ild.Kernel.Copy.{reply}
use ild.Counter.{c_string}
use ild.Text.Cat.{cat, cat-end, cat-more}
use ild.Message.{Messages, remove_first, write_last}
use ild.Message.Plain
use ild.Message.Valid.{IsValid, plain-IsValid, remove_first-IsValid}
use ild.Message.Ready.{IsReady}
use ild.Message.Content.{remaining_lem, flat_text, read_first_piece, first_text, from_user_all}
use ild.Message.Uses.{
  plain, Use, sends, receives, Learnt, ended, use_once, use_all, Texts, queue_once, queue_all,
  texts, Fits, AllFit, Serves, AllServe,
}
use ild.Message.Texts.{length-texts, stored, texts-stored, texts-remove_first}

pub write_last-stored :
    (w : List ℕ) (s : Messages)
    → length w ≤ 31
    → write_last w (length w) 0 s ≡ (pos (length w), stored w s)
unfolding write_last
write_last-stored w s h =
    let short : leb 32 (length w) ≡ false = ground arith in rw (short, from_user_all w) refl

write_room :
    (w : List ℕ) (s : Messages)
    → (s.count == 16) ≡ false
    → length w ≤ 31
    → Plain.messages_write w (length w) 0 s ≡ (pos (length w), stored w s)
unfolding Plain.messages_write
write_room w s e h = rw e (write_last-stored w s h)

pub first_text-short : {s : Messages} → IsValid s → length (first_text s) ≤ 31
first_text-short {s} v = (flat_text s.rows v.rows (omega (arith, v.size))).1

pub read_end :
    (max offset : ℕ) {s : Messages}
    → IsValid s
    → (s.count == 0) ≡ false
    → offset ≤ 31
    → (length (first_text s) - offset ≡ 0)
    → plain.read s max offset 0
      ≡ record { reply = reply (pos 0) []; state = remove_first s; offset = offset }
unfolding Plain.messages_read
read_end max offset v e h z = rw (e, remaining_lem offset v (omega arith), z) refl

pub read_text :
    (max : ℕ) {s : Messages}
    → IsValid s
    → (s.count == 0) ≡ false
    → 31 ≤ max
    → 0 < length (first_text s)
    → plain.read s max 0 0 ≡ record {
      reply = reply (pos (length (first_text s))) (first_text s);
      state = s;
      offset = length (first_text s);
    }
read_text max {s} v e h p =
    let n = length (first_text s) in
    let room : ltb max n ≡ false = ground (arith, first_text-short v) in
    rw (room, take_all n (first_text s) (omega arith)) at (read_first_piece max v e p)

length-zero : (xs : List ℕ) → length xs ≡ 0 → xs ≡ []
length-zero [] h = refl
length-zero (x ∷ xs) h = absurd (omega arith)

cat-first :
    (max : ℕ) {s : Messages}
    → IsValid s
    → (s.count == 0) ≡ false
    → 31 ≤ max
    → cat plain.read 2 max s 0 [] ≡ some (first_text s, remove_first s)
cat-first max {s} v e h =
    let n = length (first_text s) in
    elim (Bool-cases (n == 0)) [
      | inl z ↦
          let none_left : n - 0 ≡ 0 = ground arith in
          cat-end plain.read 1 max s [] (read_end max 0 v e (omega arith) none_left)
          ∙ ap (λ t. some (t, remove_first s)) (sym (length-zero (first_text s) (ground arith)))
      | inr z ↦
          cat-more plain.read 1 max s [] (read_text max v e h (ground arith)) z
          ∙ cat-end plain.read 0 max s (first_text s)
              (read_end max n v e (first_text-short v) (omega arith))
    ]

read_none :
    (max : ℕ) (s : Messages)
    → (s.count == 0) ≡ true
    → plain.read s max 0 0 ≡ record { reply = reply (pos 0) []; state = s; offset = 0 }
unfolding Plain.messages_read
read_none max s e = rw e refl

cat-none :
    (max : ℕ) (s : Messages) → (s.count == 0) ≡ true → cat plain.read 2 max s 0 [] ≡ some ([], s)
cat-none max s e = cat-end plain.read 1 max s [] (read_none max s e)

pub texts-first :
    {s : Messages} → IsValid s → 0 < s.count → texts s ≡ first_text s ∷ drop 1 (texts s)
texts-first {s} v p = go s.rows s.count (omega (arith, v.size)) p
  where
    go :
        (rows : List (List ℕ)) (n : ℕ)
        → 0 < length rows
        → 0 < n
        → map (λ row. c_string row) (take n rows)
          ≡ c_string (get_or rows 0 []) ∷ drop 1 (map (λ row. c_string row) (take n rows))
    go [] n h k = absurd (omega arith)
    go (row ∷ rows) zero h k = absurd (omega arith)
    go (row ∷ rows) (suc n) h k = refl

write_full :
    (w : List ℕ) (s : Messages)
    → (s.count == 16) ≡ true
    → Plain.messages_write w (length w) 0 s ≡ (neg enomem, s)
unfolding Plain.messages_write
write_full w s e = rw e refl

plain-sends :
    (u : List ℕ) {s : Messages}
    → IsReady s
    → Fits (sends u)
    → Serves (use_once plain (sends u) s) (queue_once (sends u) (texts s))
plain-sends u {s} r (clean, short) = elim (Bool-cases (s.count == 16)) [
  | inl e ↦
      rw (write_full (ended u) s e, length-texts r.valid, e)
        (record { learnt = refl; left = refl; ready = r })
  | inr e ↦
      let fits : length (ended u) ≤ 31 = omega (arith, length-append u (0 ∷ []), short) in
      let room = write_room (ended u) s e fits in
      let kept = (plain-IsValid (ended u) (length (ended u)) 0 0 r.valid).1 in
      rw (room, length-texts r.valid, e)
        (record {
          learnt = refl;
          left = texts-stored u r.valid (ground (arith, r.valid.within)) clean;
          ready = record { unlocked = r.unlocked; valid = rw room at kept };
        })
]

pub remove_first-IsReady : {s : Messages} → IsReady s → IsReady (remove_first s)
unfolding remove_first
remove_first-IsReady r = record { unlocked = r.unlocked; valid = remove_first-IsValid r.valid }

plain-receives :
    (max : ℕ) {s : Messages}
    → IsReady s
    → 31 ≤ max
    → Serves (use_once plain (receives max) s) (queue_once (receives max) (texts s))
plain-receives max {s} r fits = elim (Bool-cases (s.count == 0)) [
  | inl e ↦
      let z : s.count ≡ 0 = ground arith in
      let none_left : texts s ≡ [] = ap (λ n. map (λ row. c_string row) (take n s.rows)) z in
      rw (cat-none max s e, none_left) (record { learnt = refl; left = none_left; ready = r })
  | inr e ↦
      let p : 0 < s.count = ground arith in
      rw (cat-first max r.valid e fits, texts-first r.valid p)
        (record {
          learnt = refl;
          left = texts-remove_first r.valid p;
          ready = remove_first-IsReady r;
        })
]

pub plain-once :
    (u : Use) {s : Messages}
    → IsReady s
    → Fits u
    → Serves (use_once plain u s) (queue_once u (texts s))
plain-once (sends u) r fits = plain-sends u r fits
plain-once (receives max) r fits = plain-receives max r fits

pub plain-all :
    (us : List Use) {s : Messages}
    → IsReady s
    → AllFit us
    → AllServe (use_all plain us s) (queue_all us (texts s))
plain-all [] r fits = record { learnt = refl; left = refl; ready = r }
plain-all (u ∷ us) {s} r fits =
    let one = plain-once u r fits.0 in
    let rest = plain-all us one.ready fits.1 in
    let same = ap (queue_all us) one.left in
    record {
      learnt = λ i. one.learnt i ∷ (rest.learnt ∙ ap (λ (p : List Learnt × Texts). p.0) same) i;
      left = rest.left ∙ ap (λ (p : List Learnt × Texts). p.1) same;
      ready = rest.ready;
    }
