-- ===== src/Ticks/Delivered.antt =====
-- What interrupts do to several devices of example-select.c.
use ild.Base.{ℕ, ◌≡◌, refl, ap, ◌∙◌, true, List, [], ◌∷◌, map}
use ild.Ticks.{Ticks}
use ild.Ticks.Select.{example_handler}
use ild.Ticks.Laws.{IsValid, contents, contents-push_tick, push_tick-IsValid}
use ild.Ticks.Refine.{relock}
use ild.Ticks.Watch.{deliver, deliver_all, push_all, push_each}

abbrev pub AllValid : List Ticks → Type 0
AllValid [] = Unit {0}
AllValid (d ∷ ds) = IsValid d × AllValid ds

deliver-IsValid : (js : List ℕ) {d : Ticks} → IsValid d → IsValid (deliver js d)
unfolding example_handler
deliver-IsValid [] v = v
deliver-IsValid (j ∷ js) v =
    let w = push_tick-IsValid j (relock true v) in
    deliver-IsValid js (record { size = w.size; within = w.within })

contents-deliver :
    (js : List ℕ) {d : Ticks} → IsValid d → contents (deliver js d) ≡ push_all js (contents d)
unfolding example_handler
contents-deliver [] v = refl
contents-deliver (j ∷ js) v =
    let w = push_tick-IsValid j (relock true v) in
    contents-deliver js (record { size = w.size; within = w.within })
    ∙ ap (push_all js) (contents-push_tick j (relock true v))

pub deliver_all-AllValid :
    (js : List (List ℕ)) (ds : List Ticks) → AllValid ds → AllValid (deliver_all js ds)
deliver_all-AllValid js [] v = tt
deliver_all-AllValid [] (d ∷ ds) v = v
deliver_all-AllValid (j ∷ js) (d ∷ ds) v = (deliver-IsValid j v.0, deliver_all-AllValid js ds v.1)

pub contents-deliver_all :
    (js : List (List ℕ)) (ds : List Ticks)
    → AllValid ds
    → map (λ d. contents d) (deliver_all js ds) ≡ push_each js (map (λ d. contents d) ds)
contents-deliver_all js [] v = refl
contents-deliver_all [] (d ∷ ds) v = refl
contents-deliver_all (j ∷ js) (d ∷ ds) v =
    λ i. contents-deliver j v.0 i ∷ contents-deliver_all js ds v.1 i
