-- ===== src/Message/Kept.antt =====
-- A file of the devices of tp-V-01-message-read-write.c and tp-V-02-message-mutex.c that stays
-- open.
use ild.Base.{
  pos, get_or, drop, zero, suc, ◌<◌, ◌≤◌, length, ℕ, ◌≡◌, refl, ap, sym, ◌∙◌, false, List, [], ◌∷◌,
  ◌==◌, length, arith,
}
use ild.Message.{Messages, remove_first}
use ild.Message.Plain
use ild.Message.Ready.{IsReady}
use ild.Message.Uses.{plain, mutex}
use ild.Kernel.Copy.{reply, Reply}
use ild.Message.Texts.{length-texts, texts-remove_first}
use ild.Message.Content.{first_text}
use ild.Message.Valid.{IsValid}
use ild.Message.Uses.{reads_on}
use ild.Message.Fifo.{read_end, read_text, texts-first, first_text-short, remove_first-IsReady}
use ild.Message.Uses.{Texts, texts}
use ild.Message.Delivery.{mutex-read_free, plain-read-locked}

abbrev head : Texts → List ℕ
head q = get_or q 0 []

some_texts :
    {s : Messages} {x : List ℕ} {q : Texts}
    → IsValid s
    → texts s ≡ x ∷ q
    → ((s.count == 0) ≡ false) × (0 < s.count) × (first_text s ≡ x)
some_texts {s} v h =
    let n = sym (length-texts v) ∙ ap length h in
    let p : 0 < s.count = omega (arith, n) in
    (ground arith, p, sym (ap head (texts-first v p)) ∙ ap head h)

ends_message :
    (max offset : ℕ) {s : Messages} {x : List ℕ} {q : Texts}
    → IsReady s
    → texts s ≡ x ∷ q
    → offset ≤ 31
    → length x ≤ offset
    → (plain.read s max offset 0
        ≡ record { reply = reply (pos 0) []; state = remove_first s; offset = offset })
      × (texts (remove_first s) ≡ q)
      × IsReady (remove_first s)
ends_message max offset {s} {x} {q} r h o le =
    let (some_left, p, same) = some_texts r.valid h in
    let n : length (first_text s) ≡ length x = ap length same in
    (
      read_end max offset r.valid some_left o (omega (arith, n)),
      texts-remove_first r.valid p ∙ ap (drop 1) h,
      remove_first-IsReady r,
    )

reads_on-plain :
    (max : ℕ) {s : Messages} {x y : List ℕ} {q : Texts}
    → IsReady s
    → texts s ≡ x ∷ y ∷ q
    → 31 ≤ max
    → 0 < length x
    → length y ≤ length x
    → reads_on plain max 3 s 0 ≡ (
      reply (pos (length x)) x ∷ reply (pos 0) [] ∷ reply (pos 0) [] ∷ [],
      remove_first (remove_first s),
    )
unfolding reads_on
reads_on-plain max {s} {x} {y} r h m p le =
    let v = r.valid in
    let (some_left, _, same) = some_texts v h in
    let n : length (first_text s) ≡ length x = ap length same in
    let text = rw same at (read_text max v some_left m (omega (arith, n))) in
    let short : length x ≤ 31 = omega (arith, first_text-short v, n) in
    let (first, left, ready) = ends_message max (length x) r h short (omega arith) in
    let (second, _, _) = ends_message max (length x) ready left short le in
    rw (text, first, second) refl

reads_on-mutex :
    (max n offset : ℕ) (s : Messages)
    → s.locked ≡ false
    → reads_on mutex max n s offset ≡ reads_on plain max n s offset
unfolding reads_on
reads_on-mutex max zero offset s e = refl
reads_on-mutex max (suc n) offset s e =
    let a = Plain.messages_read max 0 offset s in
    let free = plain-read-locked max offset 0 s ∙ e in
    rw (mutex-read_free max offset 0 s e, reads_on-mutex max n a.offset a.state free) refl

-- A program that keeps its file open after it has read a text to its end loses the next text if
-- that is not longer: on the devices of tp-V-01-message-read-write.c and tp-V-02-message-mutex.c
-- the offset of the file stays where the first text ended, and so the third read returns 0 and
-- removes the text that nobody has read.
pub reads_on-lost :
    (max : ℕ) {s : Messages} {x y : List ℕ} {q : Texts}
    → IsReady s
    → texts s ≡ x ∷ y ∷ q
    → 31 ≤ max
    → 0 < length x
    → length y ≤ length x
    → ((reads_on plain max 3 s 0).0
        ≡ reply (pos (length x)) x ∷ reply (pos 0) [] ∷ reply (pos 0) [] ∷ [])
      × (texts (reads_on plain max 3 s 0).1 ≡ q)
      × (reads_on mutex max 3 s 0 ≡ reads_on plain max 3 s 0)
reads_on-lost max {s} {x} {y} {q} r h m p le =
    let (some_left, _, same) = some_texts r.valid h in
    let short : length x ≤ 31 = omega (arith, first_text-short r.valid, ap length same) in
    let (_, left, ready) = ends_message max (length x) r h short (omega arith) in
    let (_, rest, _) = ends_message max (length x) ready left short le in
    let run = reads_on-plain max r h m p le in
    (
      ap (λ (a : List Reply × Messages). a.0) run,
      ap (λ (a : List Reply × Messages). texts a.1) run ∙ rest,
      reads_on-mutex max 3 0 s r.unlocked,
    )
