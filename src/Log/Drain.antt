-- ===== src/Log/Drain.antt =====
-- What a caller gets that reads the log until a read returns nothing.
use ild.Base.{
  Option, ℕ, zero, suc, ◌+◌, ◌-◌, ◌*◌, ◌≤◌, ◌<◌, ◌≡◌, refl, ap, sym, ◌∙◌, pos, List, [], ◌∷◌, ◌++◌,
  ltb, leb, ◌==◌, true, false, some, length, take, drop, length-append, length-take, append_assoc,
  append-nil, drop_all, Bool-cases, inl, inr, arith,
}
use ild.Kernel.Copy.{reply}
use ild.Kernel.Format.{show_d, show_ld, newline}
use ild.Text.Pieces.{read_text_lem}
use ild.Kernel.Buffer.{piece}
use ild.Text.Cat.{cat, regroup}
use ild.Log.{Event, Log, event_text, remove_first_event, next_event, log_read}
use ild.Log.Table.{Holds, remove_first_event-Holds, remove_first_event-Empty}

-- The texts of the events, one after the other.
abbrev pub texts : List Event → List ℕ
texts [] = []
texts (e ∷ es) = event_text e ++ texts es

length-event_text : (e : Event) → (0 < length (event_text e)) × (length (event_text e) ≤ 62)
unfolding event_text
length-event_text e =
    let body = show_ld e.time ++ (b']' ∷ b' ' ∷ show_d e.data_ ++ newline) in
    omega (arith, length-take 61 body)

pub length-texts : (es : List Event) → length (texts es) ≤ 62 * length es
length-texts [] = omega arith
length-texts (e ∷ es) =
    omega (arith, length-texts es, length-event_text e, length-append (event_text e) (texts es))

-- A read inside the text of the first event.
log_read-piece :
    (max offset : ℕ) {e : Event} {es : List Event} {s : Log}
    → Holds (e ∷ es) s
    → offset < length (event_text e)
    → let count = piece max (length (event_text e) - offset) in
      log_read s max offset 0 ≡ record {
        reply = reply (pos count) (take count (drop offset (event_text e)));
        state = s;
        offset = offset + count;
      }
unfolding log_read
log_read-piece max offset {e} {es} {s} h k =
    let some_event : (s.nb_events == 0) ≡ false = ground (arith, h.count) in
    let more : leb (length (event_text e)) offset ≡ false = ground arith in
    let size = length-event_text e in
    rw (some_event, h.events)
      (rw
        (
          read_text_lem (event_text e) max offset 0 (omega (arith, size)) (omega (arith, size)),
          more,
        )
        refl)

-- A read at its end goes on with the next event, or finds no other.
log_read-end :
    (max : ℕ) {e : Event} {es : List Event} {s : Log}
    → Holds (e ∷ es) s
    → log_read s max (length (event_text e)) 0 ≡ next_event max 0 (remove_first_event s)
unfolding log_read
log_read-end max {e} {es} {s} h =
    let some_event : (s.nb_events == 0) ≡ false = ground (arith, h.count) in
    let n = length (event_text e) in
    let done : leb n n ≡ true = ground arith in
    let size = length-event_text e in
    rw (some_event, h.events)
      (rw (read_text_lem (event_text e) max n 0 (omega (arith, size)) (omega (arith, size)), done)
        refl)

next_event-piece :
    (max : ℕ) {e : Event} {es : List Event} {s : Log}
    → Holds (e ∷ es) s
    → let count = piece max (length (event_text e) - 0) in
      next_event max 0 s ≡ record {
        reply = reply (pos count) (take count (drop 0 (event_text e)));
        state = s;
        offset = 0 + count;
      }
next_event-piece max {e} {es} {s} h =
    let some_event : (s.nb_events == 0) ≡ false = ground (arith, h.count) in
    let size = length-event_text e in
    let more : leb (length (event_text e)) 0 ≡ false = ground (arith, size) in
    rw (some_event, h.events)
      (rw (read_text_lem (event_text e) max 0 0 (omega (arith, size)) (omega arith), more) refl)

next_event-Empty :
    (max : ℕ) {s : Log}
    → Holds [] s
    → next_event max 0 s ≡ record { reply = reply (pos 0) []; state = s; offset = 0 }
next_event-Empty max {s} h =
    let none_ : (s.nb_events == 0) ≡ true = ground (arith, h.count) in rw none_ refl

pub log_read-Empty :
    (max offset : ℕ) {s : Log}
    → Holds [] s
    → log_read s max offset 0 ≡ record { reply = reply (pos 0) []; state = s; offset = offset }
unfolding log_read
log_read-Empty max offset {s} h =
    let none_ : (s.nb_events == 0) ≡ true = ground (arith, h.count) in rw none_ refl

-- The reads came to an end with this text, and nothing is left in the table.
pub record Drained (r : Option (List ℕ × Log)) (text : List ℕ) : Type 0 where
  pub left_over : Log
  pub same : r ≡ some (text, left_over)
  pub empty : Holds [] left_over

cat-step :
    (fuel max : ℕ) (s t : Log) (offset next n : ℕ) (bytes acc text : List ℕ)
    → log_read s max offset 0 ≡ record { reply = reply (pos n) bytes; state = t; offset = next }
    → (n == 0) ≡ false
    → Drained (cat log_read fuel max t next (acc ++ bytes)) text
    → Drained (cat log_read (suc fuel) max s offset acc) text
unfolding cat
cat-step fuel max s t offset next n bytes acc text e h d = rw (e, h) d

pub cat-stop :
    (fuel max : ℕ) (s t : Log) (offset next : ℕ) (acc : List ℕ)
    → log_read s max offset 0 ≡ record { reply = reply (pos 0) []; state = t; offset = next }
    → Holds [] t
    → Drained (cat log_read (suc fuel) max s offset acc) acc
unfolding cat
cat-stop fuel max s t offset next acc e h = rw e (record { left_over = t; same = refl; empty = h })

-- The text of a piece and of what follows it.
rejoin :
    (acc text more : List ℕ) (offset count : ℕ)
    → (acc ++ take count (drop offset text)) ++ (drop (offset + count) text ++ more)
      ≡ acc ++ (drop offset text ++ more)
rejoin acc text more offset count =
    sym (append_assoc (acc ++ take count (drop offset text)) (drop (offset + count) text) more)
    ∙ ap (λ r. r ++ more) (regroup acc text offset count)
    ∙ append_assoc acc (drop offset text) more

-- Inside the first event's text.
drain_more :
    (fuel max : ℕ) (e : Event) (es : List Event) {s : Log} (offset : ℕ) (acc : List ℕ)
    → Holds (e ∷ es) s
    → 0 < max
    → offset < length (event_text e)
    → let count = piece max (length (event_text e) - offset) in
      Drained
        (cat log_read fuel max s (offset + count) (acc ++ take count (drop offset (event_text e))))
        ((acc ++ take count (drop offset (event_text e)))
          ++ (drop (offset + count) (event_text e) ++ texts es))
      → Drained
          (cat log_read (suc fuel) max s offset acc)
          (acc ++ (drop offset (event_text e) ++ texts es))
drain_more fuel max e es {s} offset acc h m k d =
    let count = piece max (length (event_text e) - offset) in
    cat-step fuel max s s offset (offset + count) count (take count (drop offset (event_text e)))
      acc _ (log_read-piece max offset h k) (ground arith)
      (rw (rejoin acc (event_text e) (texts es) offset count) at d)

read_at_end :
    (max offset : ℕ) {e : Event} {es : List Event} {s : Log}
    → Holds (e ∷ es) s
    → offset ≡ length (event_text e)
    → log_read s max offset 0 ≡ next_event max 0 (remove_first_event s)
read_at_end max offset {e} {es} {s} h end = ap (λ o. log_read s max o 0) end ∙ log_read-end max h

pub drain :
    (fuel max : ℕ) (e : Event) (es : List Event) {s : Log} (offset : ℕ) (acc : List ℕ)
    → Holds (e ∷ es) s
    → 0 < max
    → offset ≤ length (event_text e)
    → (length (event_text e) - offset) + length (texts es) < fuel
    → Drained (cat log_read fuel max s offset acc) (acc ++ (drop offset (event_text e) ++ texts es))
drain zero max e es offset acc h m k f = absurd (omega arith)
drain (suc fuel) max e [] {s} offset acc h m k f =
    elim (Bool-cases (ltb offset (length (event_text e)))) [
      | inl more ↦
          let count = piece max (length (event_text e) - offset) in
          let inside : offset < length (event_text e) = ground arith in
          drain_more fuel max e [] offset acc h m inside
            (drain fuel max e [] (offset + count) _ h m (ground arith) (ground arith))
      | inr done ↦
          let end : offset ≡ length (event_text e) = ground arith in
          let h' = remove_first_event-Empty h in
          rw (drop_all offset (event_text e) (omega (arith, end)), append-nil acc)
            (cat-stop fuel max s (remove_first_event s) offset 0 acc
              (read_at_end max offset h end ∙ next_event-Empty max h') h')
    ]
drain (suc fuel) max e (e' ∷ es) {s} offset acc h m k f =
    elim (Bool-cases (ltb offset (length (event_text e)))) [
      | inl more ↦
          let count = piece max (length (event_text e) - offset) in
          let inside : offset < length (event_text e) = ground arith in
          drain_more fuel max e (e' ∷ es) offset acc h m inside
            (drain fuel max e (e' ∷ es) (offset + count) _ h m (ground arith) (ground arith))
      | inr done ↦
          let end : offset ≡ length (event_text e) = ground arith in
          let h' = remove_first_event-Holds h in
          let text = event_text e' in
          let count = piece max (length text - 0) in
          let size = length-event_text e' in
          let bytes = take count (drop 0 text) in
          let rest =
            drain fuel max e' es (0 + count) (acc ++ bytes) h' m (ground arith)
              (ground (arith, length-append text (texts es))) in
          rw (drop_all offset (event_text e) (omega (arith, end))) (
            cat-step fuel max s (remove_first_event s) offset (0 + count) count bytes acc
              (acc ++ (text ++ texts es)) (read_at_end max offset h end ∙ next_event-piece max h')
              (ground (arith, size)) (rw (rejoin acc text (texts es) 0 count) at rest))
    ]
