-- ===== src/Text/Cat.antt =====
-- A caller that reads until a read returns no byte.
use ild.Base.{
  ℕ, zero, suc, ◌+◌, ◌-◌, ◌^◌, ◌≤◌, ◌<◌, ◌≡◌, ◌∙◌, ap, sym, List, [], ◌++◌, pos, negsuc, Bool, true,
  false, leb, ◌==◌, if◌then◌else◌, Option, none, some, length, take, drop, arith, append-nil,
  append_assoc, drop_all, drop-drop, take-append-drop, Bool-cases, inl, inr,
}
use ild.Kernel.Buffer.{piece}
use ild.Kernel.Copy.{Reply, reply, out_of_bounds}
use ild.Text.{Answer, read_device}
use ild.Text.Pieces.{read_text_lem}

abbrev pub sent : Reply → List ℕ
sent (reply r bytes) = bytes
sent out_of_bounds = []

abbrev pub is_last : Reply → Bool
is_last (reply (pos n) bytes) = n == 0
is_last (reply (negsuc n) bytes) = true
is_last out_of_bounds = true

-- `none`: the reads given by the fuel did not reach the end.
unfoldable pub cat :
    {S : Type 0} → (S → ℕ → ℕ → ℕ → Answer S) → ℕ → ℕ → S → ℕ → List ℕ → Option (List ℕ × S)
cat read zero max s offset acc = none
cat read (suc fuel) max s offset acc =
    let a = read s max offset 0 in
    let rest = cat read fuel max a.state a.offset (acc ++ sent a.reply) in
    if is_last a.reply then some (acc, a.state) else rest

module _ {S : Type 0} (read : S → ℕ → ℕ → ℕ → Answer S) (fuel max : ℕ) (s : S) (acc : List ℕ) where
  pub cat-end :
      {t : S} {offset next : ℕ}
      → read s max offset 0 ≡ record { reply = reply (pos 0) []; state = t; offset = next }
      → cat read (suc fuel) max s offset acc ≡ some (acc, t)
  unfolding cat
  cat-end e = rw e

  pub cat-error :
      {t : S} {n offset next : ℕ} {bytes : List ℕ}
      → read s max offset 0 ≡ record { reply = reply (negsuc n) bytes; state = t; offset = next }
      → cat read (suc fuel) max s offset acc ≡ some (acc, t)
  unfolding cat
  cat-error e = rw e

  pub cat-more :
      {n offset next : ℕ} {bytes : List ℕ}
      → read s max offset 0 ≡ record { reply = reply (pos n) bytes; state = s; offset = next }
      → (n == 0) ≡ false
      → cat read (suc fuel) max s offset acc ≡ cat read fuel max s next (acc ++ bytes)
  unfolding cat
  cat-more e h = rw (e, h)

pub regroup :
    (acc text : List ℕ) (offset count : ℕ)
    → (acc ++ take count (drop offset text)) ++ drop (offset + count) text ≡ acc ++ drop offset text
regroup acc text offset count =
    append_assoc acc (take count (drop offset text)) (drop (offset + count) text)
    ∙ ap (λ r. acc ++ r)
        (ap (λ r. take count (drop offset text) ++ r) (sym (drop-drop count offset text))
          ∙ take-append-drop count (drop offset text))

-- What reads of a text answer, whichever code makes them: at the end of the text nothing, and the
-- state `ended`, and before it a piece of the text, and the state unchanged.
pub record IsReadOf {S : Type 0} (read : S → ℕ → ℕ → ℕ → Answer S) (text : List ℕ) (max : ℕ) (s : S)
    (ended : S) : Type 0 where
  pub at_end :
      (offset : ℕ)
      → offset ≤ length text
      → leb (length text) offset ≡ true
      → read s max offset 0 ≡ record { reply = reply (pos 0) []; state = ended; offset = offset }
  pub before_end :
      (offset : ℕ)
      → offset ≤ length text
      → leb (length text) offset ≡ false
      → let count = piece max (length text - offset) in
        read s max offset 0 ≡ record {
          reply = reply (pos count) (take count (drop offset text));
          state = s;
          offset = offset + count;
        }

module _ {S : Type 0} (read : S → ℕ → ℕ → ℕ → Answer S) (text : List ℕ) (max : ℕ) (s ended : S)
    (k : IsReadOf read text max s ended) where
  -- Reads with any room at all give the rest of the text, and then what its end changes.
  pub cat-IsReadOf :
      (fuel offset : ℕ) (acc : List ℕ)
      → 0 < max
      → offset ≤ length text
      → length text - offset < fuel
      → cat read fuel max s offset acc ≡ some (acc ++ drop offset text, ended)
  cat-IsReadOf zero offset acc m h f = absurd (omega arith)
  cat-IsReadOf (suc fuel) offset acc m h f = elim (Bool-cases (leb (length text) offset)) [
    | inl done ↦
        cat-end read fuel max s acc (k.at_end offset h done)
        ∙ rw (drop_all offset text (ground arith), append-nil)
    | inr more ↦
        let count = piece max (length text - offset) in
        cat-more read fuel max s acc (k.before_end offset h more) (ground arith)
        ∙ cat-IsReadOf fuel (offset + count) (acc ++ take count (drop offset text)) m (ground arith)
            (ground arith)
        ∙ ap (λ r. some (r, ended)) (regroup acc text offset count)
  ]

module _ {S : Type 0} (text : S → List ℕ) (end : S → S) where
  pub read_device-IsReadOf :
      (max : ℕ) (s : S)
      → length (text s) < 2 ^ 31
      → IsReadOf (read_device text end) (text s) max s (end s)
  read_device-IsReadOf max s h = record {
    at_end = λ offset k done. rw (read_text_lem (text s) max offset 0 h (omega arith), done);
    before_end = λ offset k more. rw (read_text_lem (text s) max offset 0 h (omega arith), more);
  }

  pub cat-read_device :
      (fuel max : ℕ) (s : S) (offset : ℕ) (acc : List ℕ)
      → 0 < max
      → length (text s) < 2 ^ 31
      → offset ≤ length (text s)
      → length (text s) - offset < fuel
      → cat (read_device text end) fuel max s offset acc ≡ some (acc ++ drop offset (text s), end s)
  cat-read_device fuel max s offset acc m h k f =
      cat-IsReadOf (read_device text end) (text s) max s (end s) (read_device-IsReadOf max s h) fuel
        offset acc m k f
