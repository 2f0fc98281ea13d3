-- ===== src/Message/Delivery.antt =====
-- The device of tp-V-02-message-mutex.c beside that of tp-V-01-message-read-write.c.
use ild.Base.{
  length, ℕ, ◌≡◌, refl, ap, sym, ◌∙◌, false, List, [], ◌∷◌, ◌==◌, length, arith, Bool-cases, inl,
  inr,
}
use ild.Text.Cat.{cat}
use ild.Message.{Messages, remaining, remove_first, write_last, copy_piece}
use ild.Message.Plain
use ild.Message.Mutex
use ild.Message.Ready.{IsReady}
use ild.Message.Uses.{
  plain, mutex, Use, sends, receives, Learnt, wrote, ended, outcome, use_once, use_all, queue_all,
  AllFit, AllServe,
}
use ild.Message.Fifo.{plain-once, plain-all}
use ild.Message.System.{loaded, loaded-IsReady}

-- With the mutex free and no signal, the methods of tp-V-02-message-mutex.c do what those of
-- tp-V-01-message-read-write.c do.
unlocked-copy_piece :
    (size left offset : ℕ) (s : Messages)
    → Mutex.unlock_read (copy_piece size left offset (Mutex.lock (Mutex.unlock s)))
      ≡ copy_piece size left offset (Mutex.unlock s)
unfolding copy_piece
unlocked-copy_piece size left offset s = ground arith

mutex-read :
    (max offset left : ℕ) (s : Messages)
    → mutex.read (Mutex.unlock s) max offset left ≡ plain.read (Mutex.unlock s) max offset left
unfolding Mutex.messages_read Plain.messages_read remove_first
mutex-read max offset left s = elim (Bool-cases (s.count == 0)) [
  | inl e ↦ rw e refl
  | inr e ↦ rw e (elim (Bool-cases (remaining s offset == 0)) [
    | inl f ↦ rw f refl
    | inr f ↦ rw f (unlocked-copy_piece max left offset s)
  ])
]

mutex-write :
    (w : List ℕ) (size left : ℕ) (s : Messages)
    → mutex.write w size left (Mutex.unlock s) ≡ plain.write w size left (Mutex.unlock s)
unfolding Mutex.messages_write Plain.messages_write write_last
mutex-write w size left s = ground arith

unlock_free : (s : Messages) → s.locked ≡ false → Mutex.unlock s ≡ s
unlock_free s e = λ i. record s { locked = sym e i }

pub mutex-read_free :
    (max offset left : ℕ) (s : Messages)
    → s.locked ≡ false
    → Mutex.messages_read false max left offset s ≡ Plain.messages_read max left offset s
mutex-read_free max offset left s e =
    sym (ap (λ t. mutex.read t max offset left) (unlock_free s e))
    ∙ mutex-read max offset left s
    ∙ ap (λ t. plain.read t max offset left) (unlock_free s e)

pub plain-read-locked :
    (max offset left : ℕ) (s : Messages)
    → (Plain.messages_read max left offset s).state.locked ≡ s.locked
unfolding Plain.messages_read copy_piece remove_first
plain-read-locked max offset left s = ground arith

cat-mutex :
    (max : ℕ) (s : Messages)
    → s.locked ≡ false
    → cat mutex.read 2 max s 0 [] ≡ cat plain.read 2 max s 0 []
unfolding cat
cat-mutex max s e =
    let a = Plain.messages_read max 0 0 s in
    rw
      (
        mutex-read_free max 0 0 s e,
        mutex-read_free max a.offset 0 a.state (plain-read-locked max 0 0 s ∙ e),
      )
      refl

mutex-once : (u : Use) {s : Messages} → IsReady s → use_once mutex u s ≡ use_once plain u s
mutex-once (sends u) {s} r =
    let w = ended u in
    let same =
      sym (ap (mutex.write w (length w) 0) (unlock_free s r.unlocked))
      ∙ mutex-write w (length w) 0 s
      ∙ ap (plain.write w (length w) 0) (unlock_free s r.unlocked) in
    λ i. (wrote (same i).0, (same i).1)
mutex-once (receives max) {s} r = ap (outcome s) (cat-mutex max s r.unlocked)

mutex-all :
    (us : List Use) {s : Messages} → IsReady s → AllFit us → use_all mutex us s ≡ use_all plain us s
mutex-all [] r fits = refl
mutex-all (u ∷ us) {s} r fits =
    let next = (plain-once u r fits.0).ready in
    let rest = mutex-all us next fits.1 in
    let one = mutex-once u r in
    let step = ap (λ (p : Learnt × Messages). use_all mutex us p.1) one ∙ rest in
    λ i. ((one i).0 ∷ (step i).0, (step i).1)

-- A program that is alone, writes texts of at most 30 bytes, each with its NUL, and reads messages
-- with room for 31 bytes, opening the device anew for each message, in any order from the loading
-- of the module on, with no signal and no failing copy, sees a queue of at most 16 texts on the
-- devices of tp-V-01-message-read-write.c and tp-V-02-message-mutex.c: a write is refused with
-- -ENOMEM exactly if the queue is full, and returns the bytes with the NUL otherwise; reading until
-- a read returns 0 takes two reads at most, gives the oldest text whole, and removes it; and what
-- is left in the table is the queue, with the mutex free and the rows ended.
pub use_all-queue_all :
    (us : List Use)
    → AllFit us
    → AllServe (use_all plain us loaded) (queue_all us [])
      × AllServe (use_all mutex us loaded) (queue_all us [])
use_all-queue_all us fits =
    let serves = plain-all us loaded-IsReady fits in
    (serves, rw (mutex-all us loaded-IsReady fits) serves)
