-- ===== src/Message/Waits.antt =====
-- What others do to the texts of the table, and a wait for them, beside the queue.
use ild.Base.{
  ℕ, ◌≤◌, ◌≡◌, refl, ap, sym, ◌∙◌, Bool, true, false, List, [], ◌∷◌, map, leb, ◌==◌, length, drop,
  take, arith, length-append, Bool-cases, inl, inr,
}
use mathlib.Core.Path.{subst}
use ild.Counter.{c_string}
use ild.Message.{Messages}
use ild.Message.Mutex.{lock, unlock}
use ild.Message.Blocking.{act, act_all, wait_while}
use ild.Message.Valid.{IsValid}
use ild.Message.Ready.{IsReady, unlocks, locks, act_all-IsReady}
use ild.Message.Uses.{Texts, ended, texts}
use ild.Message.Texts.{length-texts, texts-stored, texts-remove_first}
use ild.Message.Fifo.{write_last-stored}
use ild.Message.Waiting.{
  Other, sent, removed, to_action, Waking, signal, relock_signal, woken, wakes, AllShort, EachShort,
  other_act, others_act, queue_wait, Agrees, Matches,
}

pub length-ended : (u : List ℕ) → length u ≤ 30 → length (ended u) ≤ 31
length-ended u h = omega (arith, length-append u (0 ∷ []))

pub texts-none : (s : Messages) → (s.count == 0) ≡ true → texts s ≡ []
texts-none s e =
    let z : s.count ≡ 0 = ground arith in ap (λ n. map (λ row. c_string row) (take n s.rows)) z

texts-act :
    (o : Other) {s : Messages}
    → IsValid s
    → AllShort (o ∷ [])
    → texts (act (to_action o) s) ≡ other_act o (texts s)
texts-act (sent u) {s} v short = elim (Bool-cases (leb 16 s.count)) [
  | inl e ↦ rw (length-texts v, e) refl
  | inr e ↦
      rw (length-texts v, e, write_last-stored (ended u) s (length-ended u short.0.1))
        (texts-stored u v (ground arith) short.0.0)
]
texts-act removed {s} v short = elim (Bool-cases (s.count == 0)) [
  | inl e ↦ rw e (texts-none s e ∙ sym (ap (drop 1) (texts-none s e)))
  | inr e ↦ rw e (texts-remove_first v (ground arith))
]

texts-act_all :
    (others : List Other) {s : Messages}
    → IsReady s
    → AllShort others
    → texts (act_all (map to_action others) s) ≡ others_act others (texts s)
texts-act_all [] r short = refl
texts-act_all (sent u ∷ others) {s} r short =
    texts-act_all others (act_all-IsReady (to_action (sent u) ∷ []) r) short.1
    ∙ ap (others_act others) (texts-act (sent u) r.valid (short.0, tt))
texts-act_all (removed ∷ others) {s} r short =
    texts-act_all others (act_all-IsReady (to_action removed ∷ []) r) short
    ∙ ap (others_act others) (texts-act removed r.valid tt)

module _ {R : Type 0} (busy : Messages → Bool) (queue_busy : Texts → Bool) (restart : R)
    (next : Messages → R × Messages) (queue_next : Texts → R × Texts)
    (same : (s : Messages) → IsValid s → busy s ≡ queue_busy (texts s))
    (agrees : (s : Messages)
      → IsValid s
      → busy s ≡ false
      → Agrees (next s) (queue_next (texts s))) where
  pub wait_while-Matches :
      (ws : List Waking) {s : Messages}
      → IsValid s
      → EachShort ws
      → Matches
          (wait_while busy restart next (wakes ws) s)
          (queue_wait queue_busy restart queue_next ws (texts s))
  unfolding wait_while
  wait_while-Matches [] {s} v short = elim (Bool-cases (busy s)) [
    | inl e ↦ rw (sym (same s v), e) refl
    | inr e ↦ rw (sym (same s v), e) (agrees s v e)
  ]
  wait_while-Matches (signal ∷ ws) {s} v short = elim (Bool-cases (busy s)) [
    | inl e ↦ rw (sym (same s v), e) (refl, refl)
    | inr e ↦ rw (sym (same s v), e) (agrees s v e)
  ]
  wait_while-Matches (relock_signal others ∷ ws) {s} v short = elim (Bool-cases (busy s)) [
    | inl e ↦ rw (sym (same s v), e) (refl, texts-act_all others (unlocks v) short.0)
    | inr e ↦ rw (sym (same s v), e) (agrees s v e)
  ]
  wait_while-Matches (woken others ∷ ws) {s} v short = elim (Bool-cases (busy s)) [
    | inl e ↦
        let acted = texts-act_all others (unlocks v) short.0 in
        let w = locks (act_all-IsReady (map to_action others) (unlocks v)).valid in
        rw (sym (same s v), e)
          (subst
            (λ q.
              Matches
                (wait_while busy restart next (wakes ws)
                  (lock (act_all (map to_action others) (unlock s))))
                (queue_wait queue_busy restart queue_next ws q))
            acted (wait_while-Matches ws w short.1))
    | inr e ↦ rw (sym (same s v), e) (agrees s v e)
  ]
