-- ===== src/Ticks/Turns.antt =====
-- The run of the program of cat-non-block.c, turn by turn.
use ild.Base.{
  ℕ, zero, suc, ◌<◌, ◌%◌, ◌+◌, ◌≡◌, ◌≤◌, refl, ap, sym, ◌∙◌, pos, neg, List, [], ◌∷◌, ◌++◌, map,
  none, some, true, false, ltb, ◌==◌, if◌then◌else◌, length, length-take, get_or, Bool-cases, inl,
  inr, arith,
}
use ild.Kernel.Errno.{eagain}
use ild.Kernel.Copy.{reply}
use ild.Kernel.Format.{show_ld, newline}
use ild.Ticks.{
  Ticks, returned, k_buffer, send_line, spin_lock, spin_unlock, pop_first, take_value, read_loop,
}
use ild.Ticks.Blocking.{nonblocking_read, nonblocking_handler}
use ild.Ticks.Laws.{
  IsValid, contents, contents-cons, contents-nil, contents-push_tick, push_tick-IsValid,
  pop_first-IsValid,
}
use ild.Ticks.Refine.{relock}
use ild.Ticks.Queue
use ild.Ticks.Queue.{Queue, Call, interrupt, poll, served, accepted, final}
use ild.Ticks.History.{served-final}
use ild.Ticks.Program.{
  Output, text, prompt, next_prompt, cat_turn, interrupts, write_and_go_on, after_read,
  nonblocking_cat, texts, prompts, wheel, line, calls,
}

wheel-four : (i n : ℕ) → wheel (i + 4) n ≡ wheel i n
wheel-four i zero = refl
wheel-four i (suc n) =
    let m : (i + 4) % 4 ≡ i % 4 = omega arith in
    let c : i + 4 + 1 ≡ i + 1 + 4 = omega arith in rw (m, c, wheel-four (i + 1) n) refl

-- The place after a prompt is the next one, modulo 4.
next_prompt-wheel : (i n : ℕ) → i < 4 → wheel (next_prompt i) n ≡ wheel (i + 1) n
next_prompt-wheel i n h = elim (Bool-cases (i + 1 == 4)) [
  | inl e ↦ let four : i + 1 ≡ 4 = ground arith in rw (e, four) (sym (wheel-four 0 n))
  | inr e ↦ rw e refl
]

next_prompt-lt : (i : ℕ) → i < 4 → next_prompt i < 4
next_prompt-lt i h = ground arith

wheel-cons :
    (i : ℕ) (ps : List ℕ)
    → i < 4
    → ps ≡ wheel (next_prompt i) (length ps)
    → i ∷ ps ≡ wheel i (suc (length ps))
wheel-cons i ps h p =
    let small : i % 4 ≡ i = omega arith in
    ap (λ l. i ∷ l) (p ∙ next_prompt-wheel i (length ps) h)
    ∙ ap (λ k. k ∷ wheel (i + 1) (length ps)) (sym small)

abbrev push_all : List ℕ → Queue → Queue
push_all [] q = q
push_all (j ∷ js) q = push_all js (Queue.push j q)

served-interrupts :
    (js : List ℕ) (cs : List Call) (q : Queue)
    → served (map interrupt js ++ cs) q ≡ served cs (push_all js q)
served-interrupts [] cs q = refl
served-interrupts (j ∷ js) cs q = served-interrupts js cs (Queue.push j q)

final-interrupts :
    (js : List ℕ) (cs : List Call) (q : Queue)
    → final (map interrupt js ++ cs) q ≡ final cs (push_all js q)
final-interrupts [] cs q = refl
final-interrupts (j ∷ js) cs q = final-interrupts js cs (Queue.push j q)

handler-IsValid : (j : ℕ) {s : Ticks} → IsValid s → IsValid (nonblocking_handler j s)
unfolding nonblocking_handler
handler-IsValid j v =
    let w = push_tick-IsValid j (relock true v) in record { size = w.size; within = w.within }

contents-handler :
    (j : ℕ) {s : Ticks} → IsValid s → contents (nonblocking_handler j s) ≡ Queue.push j (contents s)
unfolding nonblocking_handler
contents-handler j v = contents-push_tick j (relock true v)

interrupts-IsValid : (js : List ℕ) {s : Ticks} → IsValid s → IsValid (interrupts js s)
interrupts-IsValid [] v = v
interrupts-IsValid (j ∷ js) v = interrupts-IsValid js (handler-IsValid j v)

contents-interrupts :
    (js : List ℕ) {s : Ticks} → IsValid s → contents (interrupts js s) ≡ push_all js (contents s)
contents-interrupts [] v = refl
contents-interrupts (j ∷ js) v =
    contents-interrupts js (handler-IsValid j v) ∙ ap (push_all js) (contents-handler j v)

pub k_buffer-short : (x : ℕ) → length (k_buffer x) ≤ 79
k_buffer-short x = omega (arith, length-take 79 (show_ld x ++ newline))

pub fits : (n : ℕ) → n ≤ 79 → ltb 4096 (n + 1) ≡ false
fits n h = ground arith

send_line-whole : (x : ℕ) → send_line x 4096 0 ≡ reply (pos (length (k_buffer x) + 1)) (line x)
unfolding send_line
send_line-whole x = rw (fits (length (k_buffer x)) (k_buffer-short x)) refl

read_empty :
    (s : Ticks)
    → (s.array_end == 0) ≡ true
    → nonblocking_read true [] 4096 0 s
      ≡ returned (reply (neg eagain) []) (record s { locked = false })
unfolding nonblocking_read read_loop
read_empty s e = rw e refl

read_value :
    (s : Ticks)
    → (s.array_end == 0) ≡ false
    → nonblocking_read true [] 4096 0 s
      ≡ returned (send_line (get_or s.array 0 0) 4096 0) (spin_unlock (pop_first (spin_lock s)))
unfolding nonblocking_read read_loop take_value
read_value s e = rw e refl

pub sum-positive : (n : ℕ) → (n + 1 == 0) ≡ false
sum-positive n = ground arith

module _ (js : List ℕ) (turns : List (List ℕ)) (i : ℕ) (s : Ticks) where
  -- The device after the interrupts and a read that found nothing, or a value.
  abbrev idle : Ticks
  idle = record (interrupts js s) { locked = false }

  abbrev emptied : Ticks
  emptied = spin_unlock (pop_first (spin_lock (interrupts js s)))

  turn_empty :
      ((interrupts js s).array_end == 0) ≡ true
      → nonblocking_cat (js ∷ turns) i s ≡ (
        prompt i ∷ (nonblocking_cat turns (next_prompt i) idle).0,
        (nonblocking_cat turns (next_prompt i) idle).1,
      )
  unfolding nonblocking_cat cat_turn
  turn_empty e =
      ap (after_read (λ next t. nonblocking_cat turns next t) i) (read_empty (interrupts js s) e)

  turn_value :
      ((interrupts js s).array_end == 0) ≡ false
      → nonblocking_cat (js ∷ turns) i s ≡ (
        text (line (get_or (interrupts js s).array 0 0)) ∷ (nonblocking_cat turns i emptied).0,
        (nonblocking_cat turns i emptied).1,
      )
  unfolding nonblocking_cat cat_turn
  turn_value e =
      let x = get_or (interrupts js s).array 0 0 in
      let rest : ℕ → Ticks → List Output × Ticks = λ next t. nonblocking_cat turns next t in
      ap (after_read rest i) (read_value (interrupts js s) e)
      ∙ ap (λ r. write_and_go_on rest emptied (cat_turn r i)) (send_line-whole x)
      ∙ ap (λ b. write_and_go_on rest emptied (if b then none else some (text (line x), i)))
          (sum-positive (length (k_buffer x)))

-- What a run of the program writes and leaves, by the queue.
record Relays (turns : List (List ℕ)) (i : ℕ) (s : Ticks) (result : List Output × Ticks)
    : Type 0 where
  shown : texts result.0 ≡ map line (served (calls turns) (contents s))
  left_over : contents result.1 ≡ final (calls turns) (contents s)
  turned : prompts result.0 ≡ wheel i (length (prompts result.0))
  counted : length result.0 ≡ length turns

nonblocking_cat-Relays :
    (turns : List (List ℕ)) (i : ℕ) {s : Ticks}
    → IsValid s
    → i < 4
    → Relays turns i s (nonblocking_cat turns i s)
unfolding nonblocking_cat pop_first
nonblocking_cat-Relays [] i v h = record {
  shown = refl;
  left_over = refl;
  turned = refl;
  counted = refl;
}
nonblocking_cat-Relays (js ∷ turns) i {s} v h =
    let w = interrupts-IsValid js v in
    let q = contents-interrupts js v in
    let next = poll 4096 0 ∷ calls turns in
    elim (Bool-cases ((interrupts js s).array_end == 0)) [
      | inl e ↦
          let r =
            nonblocking_cat-Relays turns (next_prompt i) (relock false w) (next_prompt-lt i h) in
          let z = contents-nil (interrupts js s) e in
          let n = sym q ∙ z in
          rw (turn_empty js turns i s e) (record {
            shown =
                r.shown
                ∙ ap (map line) (
                    ap (served (calls turns)) z
                    ∙ sym (ap (served next) n)
                    ∙ sym (served-interrupts js next (contents s)));
            left_over =
                r.left_over
                ∙ ap (final (calls turns)) z
                ∙ sym (ap (final next) n)
                ∙ sym (final-interrupts js next (contents s));
            turned = wheel-cons i _ h r.turned;
            counted = ap suc r.counted;
          })
      | inr e ↦
          let r =
            nonblocking_cat-Relays turns i (relock false (pop_first-IsValid (relock true w))) h in
          let n = sym q ∙ contents-cons w e in
          rw (turn_value js turns i s e) (record {
            shown =
                ap (λ l. line (get_or (interrupts js s).array 0 0) ∷ l) r.shown
                ∙ ap (map line)
                    (sym (ap (served next) n) ∙ sym (served-interrupts js next (contents s)));
            left_over =
                r.left_over ∙ sym (ap (final next) n) ∙ sym (final-interrupts js next (contents s));
            turned = r.turned;
            counted = ap suc r.counted;
          })
    ]

-- The program of cat-non-block.c, which reads a device of example-V-09.c with interrupts before
-- each read, never waits and never stops: every turn of its loop writes one thing. The texts that
-- it writes are the lines of values that, followed by those still in the device, are the values
-- stored at the start followed by those that the interrupts got in, in order; and the n-th prompt,
-- counted from 0, is the character n % 4 of the prompts.
pub nonblocking_cat-turns :
    (turns : List (List ℕ)) {s : Ticks}
    → IsValid s
    → (length (nonblocking_cat turns 0 s).0 ≡ length turns)
      × (texts (nonblocking_cat turns 0 s).0 ≡ map line (served (calls turns) (contents s)))
      × (served (calls turns) (contents s) ++ contents (nonblocking_cat turns 0 s).1
          ≡ contents s ++ accepted (calls turns) (contents s))
      × (prompts (nonblocking_cat turns 0 s).0
          ≡ wheel 0 (length (prompts (nonblocking_cat turns 0 s).0)))
nonblocking_cat-turns turns {s} v =
    let r = nonblocking_cat-Relays turns 0 v (omega arith) in
    (
      r.counted,
      r.shown,
      ap (λ q. served (calls turns) (contents s) ++ q) r.left_over
          ∙ served-final (calls turns) (contents s),
      r.turned,
    )
