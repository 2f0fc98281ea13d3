-- ===== src/Ticks/Refine.antt =====
-- The read system calls and the handlers refine the queue of Ticks/Queue.antt.
use ild.Base.{
  ℕ, ◌+◌, length, ltb, neg, Bool, true, false, ◌≡◌, refl, inl, inr, List, [], ◌∷◌, ◌==◌, Bool-cases,
  ap, ◌∙◌, get_or, if◌then◌else◌,
}
use ild.Kernel.Copy.{Reply, reply}
use ild.Kernel.Errno.{enomem}
use ild.Ticks.{
  Ticks, Action, tick, taken, Wake, signal, woken, Outcome, returned, asleep, finish, spin_unlock,
  pop_first, act, act_all, read_loop, take_value, send_line, k_buffer,
}
use ild.Ticks.Select
use ild.Ticks.Laws.{
  IsValid, contents, push_tick-IsValid, pop_first-IsValid, contents-push_tick, contents-pop_first,
  contents-cons, contents-nil,
}
use ild.Ticks.Queue
use ild.Ticks.Queue.{Queue}

-- The state that an outcome leaves, and the outcome as the queue sees it.
abbrev pub state : Outcome → Ticks
state (returned r s) = s
state (asleep s) = s

abbrev pub view : Outcome → Queue.Outcome
view (returned r s) = Queue.returned r (contents s)
view (asleep s) = Queue.asleep (contents s)

-- What every way out of a call leaves: the lock free, and a valid array.
pub record IsReady (s : Ticks) : Type 0 where
  pub unlocked : s.locked ≡ false
  pub valid : IsValid s

pub relock : {s : Ticks} (b : Bool) → IsValid s → IsValid (record s { locked = b })
relock b v = record { size = v.size; within = v.within }

act-IsValid : (a : Action) {s : Ticks} → IsValid s → IsValid (act a s)
act-IsValid (tick j) {s} v =
    let w = push_tick-IsValid j (relock true v) in record { size = w.size; within = w.within }
act-IsValid taken {s} v = elim (Bool-cases (s.array_end == 0)) [
  | inl e ↦ rw e v
  | inr e ↦ rw e (relock false (pop_first-IsValid (relock true v)))
]

contents-act : (a : Action) {s : Ticks} → IsValid s → contents (act a s) ≡ Queue.act a (contents s)
contents-act (tick j) {s} v = contents-push_tick j (relock true v)
contents-act taken {s} v = elim (Bool-cases (s.array_end == 0)) [
  | inl e ↦ rw (e, contents-nil s e)
  | inr e ↦ rw e (contents-pop_first (relock true v))
]

act_all-IsValid : (as_ : List Action) {s : Ticks} → IsValid s → IsValid (act_all as_ s)
act_all-IsValid [] v = v
act_all-IsValid (a ∷ as_) v = act_all-IsValid as_ (act-IsValid a v)

contents-act_all :
    (as_ : List Action) {s : Ticks}
    → IsValid s
    → contents (act_all as_ s) ≡ Queue.act_all as_ (contents s)
contents-act_all [] v = refl
contents-act_all (a ∷ as_) v =
    contents-act_all as_ (act-IsValid a v) ∙ ap (Queue.act_all as_) (contents-act a v)

-- An answer of the driver that does as an answer of the queue.
abbrev pub Answers : (Ticks → Reply × Ticks) → (ℕ → Queue → Reply × Queue) → Type 0
Answers f g =
    (s : Ticks)
    → IsValid s
    → (s.array_end == 0) ≡ false
    → (((f s).0, contents (f s).1) ≡ g (get_or s.array 0 0) (contents (pop_first s)))
      × IsReady (f s).1

-- An outcome that the queue has too, and that leaves the device ready.
pub record Refines (o : Outcome) (q : Queue.Outcome) : Type 0 where
  pub same : view o ≡ q
  pub ready : IsReady (state o)

-- A way out of a loop that finds the array empty.
leaves :
    (r : Reply) {s : Ticks}
    → IsValid s
    → contents s ≡ []
    → Refines (returned r (spin_unlock s)) (Queue.returned r [])
leaves r v e = record {
  same = ap (Queue.returned r) e;
  ready = record { unlocked = refl; valid = relock false v };
}

sleeps :
    {s : Ticks} → IsValid s → contents s ≡ [] → Refines (asleep (spin_unlock s)) (Queue.asleep [])
sleeps v e = record {
  same = ap Queue.asleep e;
  ready = record { unlocked = refl; valid = relock false v };
}

either :
    (b : Bool) {o p : Outcome} {q r : Queue.Outcome}
    → Refines o q
    → Refines p r
    → Refines (if b then o else p) (if b then q else r)
either true h k = h
either false h k = k

module _ (f : Ticks → Reply × Ticks) (g : ℕ → Queue → Reply × Queue) (answers : Answers f g) where
  -- A loop entered with a value in the array.
  serves :
      {s : Ticks} (idle : Queue.Outcome)
      → IsValid s
      → (s.array_end == 0) ≡ false
      → Refines (finish (f s)) (Queue.serve g idle (contents s))
  serves {s} idle v e = record {
    same = rw (contents-cons v e) (ap Queue.finish (answers s v e).0);
    ready = (answers s v e).1;
  }

  pub loop-Refines :
      (nonblock : Bool) (ws : List Wake) {s : Ticks}
      → IsValid s
      → Refines (read_loop f nonblock ws s) (Queue.read g nonblock ws (contents s))
  unfolding read_loop Queue.read
  loop-Refines nonblock [] {s} v = elim (Bool-cases (s.array_end == 0)) [
    | inl e ↦
        rw (e, contents-nil s e)
          (either nonblock (leaves _ v (contents-nil s e)) (sleeps v (contents-nil s e)))
    | inr e ↦ rw e (serves _ v e)
  ]
  loop-Refines nonblock (signal ∷ ws) {s} v = elim (Bool-cases (s.array_end == 0)) [
    | inl e ↦
        rw (e, contents-nil s e)
          (either nonblock (leaves _ v (contents-nil s e)) (leaves _ v (contents-nil s e)))
    | inr e ↦ rw e (serves _ v e)
  ]
  loop-Refines nonblock (woken actions ∷ ws) {s} v = elim (Bool-cases (s.array_end == 0)) [
    | inl e ↦
        rw (e, contents-nil s e)
          (either nonblock (leaves _ v (contents-nil s e)) (
            rw (contents-act_all actions (relock false v), contents-nil s e) at
              (loop-Refines nonblock ws (relock true (act_all-IsValid actions (relock false v))))))
    | inr e ↦ rw e (serves _ v e)
  ]

module _ (size left : ℕ) where
  pub take_value-Answers : Answers (take_value size left) (Queue.take_first size left)
  unfolding take_value
  take_value-Answers s v e =
      (refl, record { unlocked = refl; valid = relock false (pop_first-IsValid v) })

  pub check_and_take-Answers :
      Answers (Select.check_and_take size left) (Queue.keep_unless_fits size left)
  unfolding Select.check_and_take send_line
  check_and_take-Answers s v e =
      elim (Bool-cases (ltb size (length (k_buffer (get_or s.array 0 0)) + 1))) [
        | inl small ↦ rw small (
          ap (λ q. (reply (neg enomem) [], q)) (contents-cons v e),
          record { unlocked = refl; valid = relock false v },
        )
        | inr fits ↦
            rw fits (refl, record { unlocked = refl; valid = relock false (pop_first-IsValid v) })
      ]
