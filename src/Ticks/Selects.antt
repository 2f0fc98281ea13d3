-- ===== src/Ticks/Selects.antt =====
-- test-select.c as a whole, at devices that do what that of example-select.c does.
use ild.Base.{
  suc, not, ℕ, ◌≡◌, refl, sym, ap, ◌∙◌, Bool, true, false, List, [], ◌∷◌, map, Option, none, some,
  ltb, if◌then◌else◌, length, Bool-cases, inl, inr, arith, ℤ,
}
use mathlib.Core.Path.{subst}
use ild.Ticks.{Ticks}
use ild.Ticks.Select.{example_poll}
use ild.Ticks.Laws.{contents}
use ild.Ticks.Queue
use ild.Ticks.Queue.{Queue}
use ild.Ticks.Watch.{
  set_up, deliver_all, masks, polled, none_set, Turn, signal, waited, select_round, watch, first,
  queue_watch,
}
use ild.Ticks.Delivered.{AllValid, deliver_all-AllValid, contents-deliver_all}
use ild.Ticks.Watched.{
  all_masks, all_polled, after_turn, after_turn-IsValid, contents-after_turn, read_set-turn,
  none_set-turn,
}
use ild.Ticks.Highest.{AllUnder, SetsUp, set_up-SetsUp}
use ild.Ticks.Watch.{End, refused, outside, held_up, wrote, in_set, select_main}

masks-all :
    (n : ℕ) (fds : List ℕ) (ds : List Ticks)
    → AllUnder n fds
    → length fds ≡ length ds
    → (masks n fds ds ≡ all_masks ds) × (polled n fds ds ≡ all_polled ds)
masks-all n [] [] under same = (refl, refl)
masks-all n [] (d ∷ ds) under same = absurd (omega (arith, same))
masks-all n (fd ∷ fds) [] under same = absurd (omega (arith, same))
masks-all n (fd ∷ fds) (d ∷ ds) under same =
    let (m, p) = masks-all n fds ds under.1 (omega (arith, same)) in
    let looked : ltb fd n ≡ true = ground (arith, under.0) in
    rw looked (ap (λ r. (example_poll d).0 ∷ r) m, ap (λ r. (example_poll d).1 ∷ r) p)

length-deliver_all : (js : List (List ℕ)) (ds : List Ticks) → length (deliver_all js ds) ≡ length ds
length-deliver_all js [] = refl
length-deliver_all [] (d ∷ ds) = refl
length-deliver_all (j ∷ js) (d ∷ ds) = ap suc (length-deliver_all js ds)

length-after_turns : (ds : List Ticks) → length (map after_turn ds) ≡ length ds
length-after_turns [] = refl
length-after_turns (d ∷ ds) = ap suc (length-after_turns ds)

select_round-turn :
    (n : ℕ) (fds : List ℕ) (js : List (List ℕ)) (ds : List Ticks)
    → AllUnder n fds
    → length fds ≡ length ds
    → AllValid (deliver_all js ds)
    → select_round n fds js ds
      ≡ some (
        map first (map (λ d. contents d) (deliver_all js ds)),
        map after_turn (deliver_all js ds),
      )
unfolding select_round
select_round-turn n fds js ds under same v =
    let ready = deliver_all js ds in
    let (m, p) = masks-all n fds ready under (same ∙ sym (length-deliver_all js ds)) in
    rw (m, p)
      (elim (Bool-cases (none_set (all_masks ready))) [
        | inl e ↦ rw e (ap some (none_set-turn ready e))
        | inr e ↦ rw e (read_set-turn ready v)
      ])

after_turn-AllValid : (ds : List Ticks) → AllValid ds → AllValid (map after_turn ds)
after_turn-AllValid [] v = tt
after_turn-AllValid (d ∷ ds) v = (after_turn-IsValid v.0, after_turn-AllValid ds v.1)

contents-after_turns :
    (ds : List Ticks)
    → AllValid ds
    → map (λ d. contents d) (map after_turn ds) ≡ map Queue.tail (map (λ d. contents d) ds)
contents-after_turns [] v = refl
contents-after_turns (d ∷ ds) v = λ i. contents-after_turn v.0 i ∷ contents-after_turns ds v.1 i

-- What a run of the program writes and leaves, by the queues.
pub record Watches (turns : List Turn) (qs : List Queue)
    (result : List (List (Option (List ℕ))) × List Ticks) : Type 0 where
  outputs : result.0 ≡ (queue_watch turns qs).0
  left_over : map (λ d. contents d) result.1 ≡ (queue_watch turns qs).1

watch-turns :
    (n : ℕ) (fds : List ℕ) (turns : List Turn) (ds : List Ticks)
    → AllUnder n fds
    → length fds ≡ length ds
    → AllValid ds
    → (result : List (List (Option (List ℕ))) × List Ticks) × (watch n fds turns ds ≡ some result)
      × Watches turns (map (λ d. contents d) ds) result
unfolding watch
watch-turns n fds [] ds under long v = (([], ds), refl, record { outputs = refl; left_over = refl })
watch-turns n fds (signal ∷ turns) ds under long v =
    (([], ds), refl, record { outputs = refl; left_over = refl })
watch-turns n fds (waited js ∷ turns) ds under long v =
    let w = deliver_all-AllValid js ds v in
    let ready = deliver_all js ds in
    let (result, runs, watches) =
      watch-turns n fds turns (map after_turn ready) under
        (long ∙ sym (length-after_turns ready ∙ length-deliver_all js ds))
        (after_turn-AllValid ready w) in
    let same = contents-deliver_all js ds v in
    let rest =
      subst (λ qs. Watches turns qs result)
        (contents-after_turns ready w ∙ ap (map Queue.tail) same) watches in
    (
      (map first (map (λ d. contents d) ready) ∷ result.0, result.1),
      rw (select_round-turn n fds js ds under long w, runs, watch) refl,
      record { outputs = λ i. map first (same i) ∷ rest.outputs i; left_over = rest.left_over },
    )

-- How the program shall end, by the files and the first argument of `select` that it has set up.
abbrev pub Loops : Bool → List Turn → List Ticks → End → Type 0
Loops false turns ds end = end ≡ outside
Loops true turns ds end =
    (outs : List (List (Option (List ℕ)))) × (last : List Ticks) × (end ≡ wrote outs last)
    × Watches turns (map (λ d. contents d) ds) (outs, last)

abbrev pub Ends : Option (List ℕ × ℕ) → List Turn → List Ticks → End → Type 0
Ends none turns ds end = end ≡ refused
Ends (some (fds, n)) turns ds end = AllUnder n fds × Loops (in_set fds) turns ds end

loops :
    (b : Bool) (n : ℕ) (fds : List ℕ) (turns : List Turn) (ds : List Ticks)
    → AllUnder n fds
    → length fds ≡ length ds
    → AllValid ds
    → Loops b turns ds (
        if not b
        then outside
        else elim (watch n fds turns ds) [ none ↦ held_up | some (outs, last) ↦ wrote outs last ])
loops false n fds turns ds under long v = refl
loops true n fds turns ds under long v =
    let (result, runs, watches) = watch-turns n fds turns ds under long v in
    (result.0, result.1, rw runs refl, watches)

-- test-select.c with one argument for each of the given devices, each of which does what that of
-- example-select.c does, is well formed and has no other reader and no other file, in any number of
-- turns of its loop, with any interrupts of each device in each turn: without memory, or with a
-- file that cannot be opened, it is refused at its start; else the first argument that it gives to
-- `select` is above every file that it opened. If a file's number is 1024 or more it sets a bit
-- outside the set. Otherwise the loop never sleeps in a read; in each turn it writes the line of
-- the oldest value of every device that has one, and that value alone is gone from the device; and
-- the devices that are left hold what such queues then hold.
pub select_main-Ends :
    (calloc : Bool) (results : List ℤ) (turns : List Turn) (ds : List Ticks)
    → AllValid ds
    → length results ≡ length ds
    → Ends (set_up calloc results) turns ds (select_main calloc results turns ds)
unfolding select_main
select_main-Ends calloc results turns ds v long =
    go (set_up calloc results) (set_up-SetsUp calloc results)
  where
    go :
        (ready : Option (List ℕ × ℕ))
        → SetsUp (length results) ready
        → Ends ready turns ds (elim ready [
          | none ↦ refused
          | some (fds, n) ↦ if not (in_set fds) then outside else elim (watch n fds turns ds) [
            | none ↦ held_up
            | some (outs, last) ↦ wrote outs last
          ]
        ])
    go none h = refl
    go (some (fds, n)) (under, same) =
        (under, loops (in_set fds) n fds turns ds under (same ∙ long) v)
