-- ===== src/Ticks/History.antt =====
-- Nothing is lost, repeated or reordered between the interrupts and the reads of example-V-07.c.
use ild.Base.{
  ℕ, ◌≡◌, refl, List, [], ◌∷◌, ◌++◌, inl, inr, true, false, ◌==◌, Bool-cases, ltb, length, ap, sym,
  ◌∙◌, append-nil, append_assoc,
}
use ild.Ticks.{Ticks, example_array_size, take_value}
use ild.Ticks.Laws.{
  IsValid, contents, contents-cons, contents-nil, contents-push_tick, push_tick-IsValid,
  pop_first-IsValid, contents-pop_first,
}
use ild.Ticks.Refine.{IsReady, relock}
use ild.Ticks.Queue
use ild.Ticks.Queue.{Queue, Call, interrupt, poll, served, accepted, answers, final}
use ild.Ticks.Polled.{example_read, example_handler, run}

-- What leaves the queue and what stays in it is what was in it and what got in.
pub served-final : (cs : List Call) (q : Queue) → served cs q ++ final cs q ≡ q ++ accepted cs q
served-final [] q = sym (append-nil q)
served-final (interrupt j ∷ cs) q = elim (Bool-cases (ltb (length q) example_array_size)) [
  | inl room ↦ rw room (served-final cs (q ++ j ∷ []) ∙ append_assoc q (j ∷ []) _)
  | inr full ↦ rw full (served-final cs q)
]
served-final (poll size left ∷ cs) [] = served-final cs []
served-final (poll size left ∷ cs) (x ∷ q) = ap (λ r. x ∷ r) (served-final cs q)

-- One read that never waits, as the queue sees it.
record Polls (size left : ℕ) (s : Ticks) : Type 0 where
  ready : IsReady (example_read size left s).1
  rest : contents (example_read size left s).1 ≡ Queue.tail (contents s)
  answer :
      (cs : List Call)
      → answers (poll size left ∷ cs) (contents s)
        ≡ (example_read size left s).0 ∷ answers cs (Queue.tail (contents s))

example_read-Polls : (size left : ℕ) {s : Ticks} → IsValid s → Polls size left s
unfolding example_read take_value
example_read-Polls size left {s} v = elim (Bool-cases (s.array_end == 0)) [
  | inl e ↦ record {
    ready = rw e (record { unlocked = refl; valid = relock false v });
    rest = rw (e, contents-nil s e);
    answer = λ cs. rw (e, contents-nil s e);
  }
  | inr e ↦ record {
    ready =
        rw e (record { unlocked = refl; valid = relock false (pop_first-IsValid (relock true v)) });
    rest = rw e (contents-pop_first (relock true v));
    answer = λ cs. rw (e, contents-cons v e);
  }
]

-- One interrupt, as the queue sees it.
record Stores (j : ℕ) (s : Ticks) : Type 0 where
  ready : IsReady (example_handler j s)
  queue : contents (example_handler j s) ≡ Queue.push j (contents s)

example_handler-Stores : (j : ℕ) {s : Ticks} → IsValid s → Stores j s
unfolding example_handler
example_handler-Stores j {s} v = record {
  ready = record { unlocked = refl; valid = relock false (push_tick-IsValid j (relock true v)) };
  queue = contents-push_tick j (relock true v);
}

-- A run as the queue sees it.
pub record Follows (cs : List Call) (s : Ticks) : Type 0 where
  pub answered : (run cs s).0 ≡ answers cs (contents s)
  pub left_over : contents (run cs s).1 ≡ final cs (contents s)
  pub valid : IsValid (run cs s).1

run-Follows : (cs : List Call) {s : Ticks} → IsValid s → Follows cs s
unfolding run
run-Follows [] v = record { answered = refl; left_over = refl; valid = v }
run-Follows (interrupt j ∷ cs) {s} v =
    let h = example_handler-Stores j v in
    let f = run-Follows cs h.ready.valid in
    record {
      answered = f.answered ∙ ap (answers cs) h.queue;
      left_over = f.left_over ∙ ap (final cs) h.queue;
      valid = f.valid;
    }
run-Follows (poll size left ∷ cs) {s} v =
    let p = example_read-Polls size left v in
    let f = run-Follows cs p.ready.valid in
    record {
      answered =
          ap (λ rs. (example_read size left s).0 ∷ rs) (f.answered ∙ ap (answers cs) p.rest)
          ∙ sym (p.answer cs);
      left_over = f.left_over ∙ ap (final cs) p.rest;
      valid = f.valid;
    }

-- Over any sequence of interrupts and reads of example-V-07.c the reads answer as those of the
-- queue do, and the values that they removed, followed by those still stored, are the values stored
-- at the start followed by those that the interrupts got in, in order.
pub run_fifo :
    (cs : List Call) {s : Ticks}
    → IsValid s
    → ((run cs s).0 ≡ answers cs (contents s))
      × (served cs (contents s) ++ contents (run cs s).1 ≡ contents s ++ accepted cs (contents s))
run_fifo cs {s} v =
    let f = run-Follows cs v in
    (f.answered, ap (λ q. served cs (contents s) ++ q) f.left_over ∙ served-final cs (contents s))
