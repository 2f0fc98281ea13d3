-- ===== src/Usb/Idle.antt =====
-- The mutexes and the busy flags of example-VII-05.c, and its waits.
use ild.Base.{
  ℕ, zero, suc, ◌≡◌, ◌⊎◌, inl, inr, refl, ◌∙◌, Bool, true, false, if◌then◌else◌, List, [], ◌∷◌,
  ◌++◌, replicate,
}
use mathlib.Core.Path.{subst, sym}
use ild.Usb.{
  Usb, Channel, Wake, signal, timeout, completed, Waited, idle, stopped, still, wait_while_busy,
  example_write_callback, example_read_callback, Outcome, returned, asleep,
}
use ild.Usb.Read.{Fetched, ready, ended, waiting}

-- Every mutex is free and the flag of each direction is clear. That a flag is clear does not say
-- that no transfer is under way: a signal clears it while the URB still flies.
pub record IsIdle (s : Usb) : Type 0 where
  pub unlocked : s.locked ≡ false
  pub output_unlocked : s.output.locked ≡ false
  pub output_idle : s.output.busy ≡ false
  pub input_unlocked : s.input.locked ≡ false
  pub input_idle : s.input.busy ≡ false

-- A direction that sleeps holds its mutex and its flag; those of the other are clear.
pub record Sleeps (c other : Channel) (s : Usb) : Type 0 where
  pub locked_ : c.locked ≡ true
  pub busy_ : c.busy ≡ true
  pub unlocked : s.locked ≡ false
  pub other_unlocked : other.locked ≡ false
  pub other_idle : other.busy ≡ false

-- What a write, and a read, may leave.
abbrev pub LeavesWrite : Outcome → Type 0
LeavesWrite (returned r s) = IsIdle s
LeavesWrite (asleep s) = Sleeps s.output s.input s

abbrev pub LeavesRead : Outcome → Type 0
LeavesRead (returned r s) = IsIdle s
LeavesRead (asleep s) = Sleeps s.input s.output s

pub then_branch : {A : Type 0} (b : Bool) (x y : A) → b ≡ true → (if b then x else y) ≡ x
then_branch b x y e = rw e

pub else_branch : {A : Type 0} (b : Bool) (x y : A) → b ≡ false → (if b then x else y) ≡ y
else_branch b x y e = rw e

-- A loop is passed at once when the flag is not set, and otherwise once the callback has run.
pub wait_idle :
    (callback : Channel → Channel) (ws : List Wake) (c : Channel)
    → c.busy ≡ false
    → wait_while_busy callback ws c ≡ idle c ws
unfolding wait_while_busy
wait_idle callback [] c e = rw e
wait_idle callback (signal ∷ ws) c e = rw e
wait_idle callback (timeout ∷ ws) c e = rw e
wait_idle callback (completed ∷ ws) c e = rw e

abbrev pub Ends : (Channel → Channel) → Channel → Waited → Type 0
Ends callback c w = (w ≡ stopped) ⊎ ((w ≡ still) ⊎ ((ws : List Wake) × (w ≡ idle (callback c) ws)))

module _ (callback : Channel → Channel) where
  pub wait-Ends :
      (ws : List Wake) (c : Channel)
      → c.busy ≡ true
      → (callback c).busy ≡ false
      → Ends callback c (wait_while_busy callback ws c)
  unfolding wait_while_busy
  wait-Ends [] c e f = inr (inl (then_branch c.busy _ _ e))
  wait-Ends (signal ∷ ws) c e f = inl (then_branch c.busy _ _ e)
  wait-Ends (timeout ∷ ws) c e f =
      subst (Ends callback c) (sym (then_branch c.busy _ _ e)) (wait-Ends ws c e f)
  wait-Ends (completed ∷ ws) c e f =
      inr (inr (ws, then_branch c.busy _ _ e ∙ wait_idle callback ws (callback c) f))

  pub wait_timeouts :
      (n : ℕ) (ws : List Wake) (c : Channel)
      → c.busy ≡ true
      → (callback c).busy ≡ false
      → wait_while_busy callback (replicate n timeout ++ completed ∷ ws) c ≡ idle (callback c) ws
  unfolding wait_while_busy
  wait_timeouts zero ws c e f = then_branch c.busy _ _ e ∙ wait_idle callback ws (callback c) f
  wait_timeouts (suc n) ws c e f = then_branch c.busy _ _ e ∙ wait_timeouts n ws c e f

module _ {R : Type 0} (P : R → Type 0) where
  pub either : (b : Bool) (x y : R) → P x → P y → P (if b then x else y)
  either true x y h k = h
  either false x y h k = k

  pub either_case :
      (b : Bool) (x y : R) → (b ≡ true → P x) → (b ≡ false → P y) → P (if b then x else y)
  either_case true x y h k = h refl
  either_case false x y h k = k refl

pub callback_idle : (c : Channel) → (example_write_callback c).busy ≡ false
unfolding example_write_callback
callback_idle c = refl

pub read_callback_idle : (c : Channel) → (example_read_callback c).busy ≡ false
unfolding example_read_callback
read_callback_idle c = refl

-- What the start of a read may leave.
abbrev pub LeavesFetch : Fetched → Type 0
LeavesFetch (ready s) = IsIdle s
LeavesFetch (ended r s) = IsIdle s
LeavesFetch (waiting s) = Sleeps s.input s.output s
