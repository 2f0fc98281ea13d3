-- ===== src/Log/Order.antt =====
-- Writes to the log, and then reads to its end.
use ild.Base.{
  ℕ, ◌≤◌, ◌<◌, ◌≡◌, ap, sym, ◌∙◌, ℤ, is_zero, if◌then◌else◌, List, [], ◌∷◌, ◌++◌, leb, length, take,
  length-append, take-append, take_all, append_assoc, append-nil, Bool-cases, inl, inr, arith,
}
use ild.Text.Cat.{cat}
use ild.Log.{event_text, Event, Log, nb_event_max, log_read, log_write, add_event_to_table}
use ild.Log.Table.{Holds, push, add_event_to_table-Holds}
use ild.Log.Drain.{texts, length-texts, Drained, drain, cat-stop, log_read-Empty}

-- A write, and the time at which it comes.
pub record Call : Type 0 where
  pub u_buffer : List ℕ
  pub nb : ℕ
  pub time : ℕ

module _ (kstrtoint_from_user : List ℕ → ℕ → ℤ × ℕ) where
  unfoldable pub write_all : List Call → Log → Log
  write_all [] s = s
  write_all (c ∷ cs) s = write_all cs (log_write kstrtoint_from_user c.u_buffer c.nb c.time s).1

  -- The events of the writes whose text is a number.
  abbrev pub requested : List Call → List Event
  requested [] = []
  requested (c ∷ cs) =
      let rest = requested cs in
      let parsed = kstrtoint_from_user c.u_buffer c.nb in
      if is_zero parsed.0 then record { data_ = parsed.1; time = c.time } ∷ rest else rest

length-Holds : {es : List Event} {s : Log} → Holds es s → length es ≤ nb_event_max
length-Holds {es} {s} h = omega (arith, h.size, ap length h.events, length-append es h.spare)

take-push :
    (v : Event) (es rest : List Event)
    → length es ≤ nb_event_max
    → take nb_event_max (push v es ++ rest) ≡ take nb_event_max (es ++ v ∷ rest)
take-push v es rest h = elim (Bool-cases (leb nb_event_max (length es))) [
  | inl full ↦
      let e : nb_event_max ≡ length es = ground arith in
      rw full (
        ap (λ n. take n (es ++ rest)) e
        ∙ take-append es rest
        ∙ sym (take-append es (v ∷ rest))
        ∙ ap (λ n. take n (es ++ v ∷ rest)) (sym e))
  | inr room ↦ rw room (ap (take nb_event_max) (append_assoc es (v ∷ []) rest))
]

module _ (kstrtoint_from_user : List ℕ → ℕ → ℤ × ℕ) where
  log_write-Holds :
      (c : Call) {es : List Event} {s : Log}
      → Holds es s
      → let parsed = kstrtoint_from_user c.u_buffer c.nb in
        Holds
          (if is_zero parsed.0 then push (record { data_ = parsed.1; time = c.time }) es else es)
          (log_write kstrtoint_from_user c.u_buffer c.nb c.time s).1
  unfolding log_write
  log_write-Holds c {es} {s} h =
      let parsed = kstrtoint_from_user c.u_buffer c.nb in
      let added = add_event_to_table parsed.1 c.time s in
      elim (Bool-cases (is_zero parsed.0)) [
        | inl e ↦ rw e (elim (Bool-cases (is_zero added.0)) [
          | inl f ↦ rw f (add_event_to_table-Holds parsed.1 c.time h)
          | inr f ↦ rw f (add_event_to_table-Holds parsed.1 c.time h)
        ])
        | inr e ↦ rw e h
      ]

  write_all-Holds :
      (cs : List Call) {es : List Event} {s : Log}
      → Holds es s
      → Holds
          (take nb_event_max (es ++ requested kstrtoint_from_user cs))
          (write_all kstrtoint_from_user cs s)
  unfolding write_all
  write_all-Holds [] {es} h = rw (append-nil es, take_all nb_event_max es (length-Holds h)) h
  write_all-Holds (c ∷ cs) {es} {s} h =
      let parsed = kstrtoint_from_user c.u_buffer c.nb in
      let v : Event = record { data_ = parsed.1; time = c.time } in
      let next = write_all-Holds cs (log_write-Holds c h) in
      elim (Bool-cases (is_zero parsed.0)) [
        | inl e ↦ rw e (
            rw (take-push v es (requested kstrtoint_from_user cs) (length-Holds h)) at
              (rw e at next))
        | inr e ↦ rw e (rw e at next)
      ]

  -- Whatever is written to an empty log, a caller that reads it until a read returns nothing gets,
  -- whatever room of a byte or more it gives every read, the texts of the first 64 events whose
  -- number could be read, each whole and once and in the order of the writes, within 4096 reads,
  -- and the log is then empty.
  pub write_all-Drained :
      (cs : List Call) (max : ℕ) {s : Log}
      → Holds [] s
      → 0 < max
      → Drained
          (cat log_read 4096 max (write_all kstrtoint_from_user cs s) 0 [])
          (texts (take nb_event_max (requested kstrtoint_from_user cs)))
  write_all-Drained cs max {s} h m =
      drains (take nb_event_max (requested kstrtoint_from_user cs)) (write_all-Holds cs h)
    where
      drains :
          (es : List Event) {t : Log}
          → Holds es t
          → Drained (cat log_read 4096 max t 0 []) (texts es)
      drains [] {t} k = cat-stop 4095 max t t 0 0 [] (log_read-Empty max 0 k) k
      drains (e ∷ es) {t} k = drain 4096 max e es 0 [] k m (omega arith) (
          omega
            (arith, length-Holds k, length-texts (e ∷ es), length-append (event_text e) (texts es)))
