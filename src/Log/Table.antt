-- ===== src/Log/Table.antt =====
-- The table stands for the list of its first events.
use ild.Base.{
  ℕ, suc, ◌+◌, ◌-◌, ◌<◌, ◌≡◌, refl, ap, ◌∙◌, List, [], ◌∷◌, ◌++◌, leb, ◌==◌, if◌then◌else◌, true,
  false, length, set, take, drop, length-append, length-take, length-drop, length-set, take-append,
  Bool-cases, inl, inr, arith, append-nil,
}
use ild.Log.{Event, Log, nb_event_max, add_event_to_table, remove_first_event}

-- The table holds these events, oldest first.
pub record Holds (es : List Event) (s : Log) : Type 0 where
  pub spare : List Event
  pub events : s.events ≡ es ++ spare
  pub count : s.nb_events ≡ length es
  pub size : length s.events ≡ nb_event_max

shifted :
    (e : Event) (es spare : List Event)
    → let all = (e ∷ es) ++ spare in
      take (length es) (drop 1 all) ++ drop (length es) all ≡ es ++ drop (length es) all
shifted e es spare = ap (λ r. r ++ drop (length es) ((e ∷ es) ++ spare)) (take-append es spare)

pub remove_first_event-Holds :
    {e e' : Event} {es : List Event} {s : Log}
    → Holds (e ∷ e' ∷ es) s
    → Holds (e' ∷ es) (remove_first_event s)
unfolding remove_first_event
remove_first_event-Holds {e} {e'} {es} {s} h =
    let k : s.nb_events - 1 ≡ suc (length es) = omega (arith, h.count) in
    let more : (suc (length es) == 0) ≡ false = ground arith in
    let all = (e ∷ e' ∷ es) ++ h.spare in
    record {
      spare = drop (suc (length es)) all;
      events = rw (k, more, h.events) (shifted e (e' ∷ es) h.spare);
      count = k;
      size =
          rw (k, more)
            (omega (
              arith,
              h.size,
              ap length h.events,
              length-append (e ∷ e' ∷ es) h.spare,
              length-append (take (suc (length es)) (drop 1 s.events))
                  (drop (suc (length es)) s.events),
              length-take (suc (length es)) (drop 1 s.events),
              length-drop 1 s.events,
              length-drop (suc (length es)) s.events,
            ));
    }

pub remove_first_event-Empty :
    {e : Event} {s : Log} → Holds (e ∷ []) s → Holds [] (remove_first_event s)
unfolding remove_first_event
remove_first_event-Empty {e} {s} h =
    let k : s.nb_events - 1 ≡ 0 = omega (arith, h.count) in
    record { spare = s.events; events = rw k refl; count = k; size = rw k h.size }

set-append :
    (xs : List Event) (x v : Event) (ys : List Event)
    → set (xs ++ x ∷ ys) (length xs) v ≡ (xs ++ v ∷ []) ++ ys
set-append [] x v ys = refl
set-append (y ∷ xs) x v ys = ap (λ r. y ∷ r) (set-append xs x v ys)

-- One more event, if the table has room.
abbrev pub push : Event → List Event → List Event
push e es = if leb nb_event_max (length es) then es else es ++ e ∷ []

add_to :
    (es : List Event) (v : Event) (spare : List Event) {s : Log}
    → s.events ≡ es ++ spare
    → s.nb_events ≡ length es
    → length s.events ≡ nb_event_max
    → length es < nb_event_max
    → Holds
        (es ++ v ∷ [])
        (record s { events = set s.events s.nb_events v; nb_events = s.nb_events + 1 })
add_to es v [] {s} e c z room =
    absurd (omega (arith, z, ap length e, ap length (append-nil es), room))
add_to es v (x ∷ spare) {s} e c z room = record {
  spare = spare;
  events = rw (e, c) (set-append es x v spare);
  count = omega (arith, c, length-append es (v ∷ []));
  size = length-set s.events s.nb_events v ∙ z;
}

pub add_event_to_table-Holds :
    (data_ time : ℕ) {es : List Event} {s : Log}
    → Holds es s
    → Holds (push (record { data_ = data_; time = time }) es) (add_event_to_table data_ time s).1
unfolding add_event_to_table
add_event_to_table-Holds data_ time {es} {s} h = elim (Bool-cases (leb nb_event_max (length es))) [
  | inl full ↦
      let e : leb nb_event_max s.nb_events ≡ true = ground (arith, h.count) in rw (e, full) h
  | inr room ↦
      let v : Event = record { data_ = data_; time = time } in
      let less : length es < nb_event_max = ground arith in
      let e : leb nb_event_max s.nb_events ≡ false = ground (arith, h.count) in
      rw (e, room) (add_to es v h.spare h.events h.count h.size less)
]
