-- ===== src/Proc/Reads.antt =====
-- What a caller that reads the files to their end gets.
use ild.Base.{
  ℕ, zero, suc, ◌<◌, ◌≡◌, refl, ◌∙◌, List, [], ◌++◌, pos, neg, ltb, leb, if◌then◌else◌, none, some,
  length, true, false, Bool-cases, inl, inr, arith,
}
use ild.Kernel.Errno.{enomem}
use ild.Kernel.Copy.{reply}
use ild.Kernel.Task.{Task, length-snprintf}
use ild.Kernel.Buffer.{SimpleRead, IsSimpleRead}
use ild.Text.Cat.{cat, cat-more, cat-error, IsReadOf, cat-IsReadOf, read_device-IsReadOf}
use ild.Proc.Current.{task_line, task_text, whole_read, piece_read, simple_answer, simple_read}

-- A read that calls `simple_read_from_buffer` is a read of the text that it formats.
pub simple_answer-IsReadOf :
    {S : Type 0} (read : SimpleRead) (text : S → List ℕ) (max : ℕ) (s : S)
    → IsSimpleRead read
    → IsReadOf (simple_answer read text) (text s) max s s
simple_answer-IsReadOf read text max s k = record {
  at_end = λ offset h done. rw (k.at_end (text s) max offset 0 (ground arith)) refl;
  before_end = λ offset h more. rw (k.before_end (text s) max offset (ground arith)) refl;
}

pub length-task_text : (task : Task) → length (task_text task) < 128
unfolding task_text
length-task_text task = length-snprintf (task_line task)

pub length-task_text_positive : (task : Task) → 0 < length (task_text task)
unfolding task_text
length-task_text_positive task = omega arith

-- The reads of example-II-04.c and of example-II-05.c, whatever room of a byte or more all of them
-- have, end, and give exactly the line of the reading process.
pub cat-task :
    (read : SimpleRead) (task : Task) (max : ℕ)
    → IsSimpleRead read
    → 0 < max
    → (cat piece_read 128 max task 0 [] ≡ some (task_text task, task))
      × (cat (simple_read read) 128 max task 0 [] ≡ some (task_text task, task))
unfolding piece_read simple_read
cat-task read task max k m =
    let h = length-task_text task in
    (
      cat-IsReadOf piece_read (task_text task) max task task
          (read_device-IsReadOf task_text (λ t. t) max task (omega (arith, h))) 128 0 [] m
          (omega arith) (omega (arith, h)),
      cat-IsReadOf (simple_read read) (task_text task) max task task
          (simple_answer-IsReadOf read task_text max task k) 128 0 [] m (omega arith)
          (omega (arith, h)),
    )

module _ (task : Task) (max : ℕ) where
  whole_read-fits :
      (offset : ℕ)
      → ltb max (length (task_text task)) ≡ false
      → whole_read task max offset 0 ≡ record {
        reply = reply (pos (length (task_text task))) (task_text task);
        state = task;
        offset = offset;
      }
  unfolding whole_read
  whole_read-fits offset e = rw e refl

  whole_read-refused :
      (offset : ℕ)
      → ltb max (length (task_text task)) ≡ true
      → whole_read task max offset 0
        ≡ record { reply = reply (neg enomem) []; state = task; offset = offset }
  unfolding whole_read
  whole_read-refused offset e = rw e refl

  cat-whole_read-fits :
      (fuel offset : ℕ) (acc : List ℕ)
      → ltb max (length (task_text task)) ≡ false
      → cat whole_read fuel max task offset acc ≡ none
  unfolding cat
  cat-whole_read-fits zero offset acc e = refl
  cat-whole_read-fits (suc fuel) offset acc e =
      cat-more whole_read fuel max task acc (whole_read-fits offset e)
        (ground (arith, length-task_text_positive task))
      ∙ cat-whole_read-fits fuel offset (acc ++ task_text task) e

  -- The reads of example-II-03.c never end when the caller has room for the line, however many are
  -- made, and give no byte of it when the caller has not.
  pub cat-whole_read :
      (fuel offset : ℕ) (acc : List ℕ)
      → cat whole_read (suc fuel) max task offset acc
        ≡ (if leb (length (task_text task)) max then none else some (acc, task))
  cat-whole_read fuel offset acc = elim (Bool-cases (ltb max (length (task_text task)))) [
    | inl e ↦ cat-error whole_read fuel max task acc (whole_read-refused offset e) ∙ ground arith
    | inr e ↦ cat-whole_read-fits (suc fuel) offset acc e ∙ ground arith
  ]

-- The reads of example-II-04.c and of example-II-05.c, whatever room of a byte or more all of them
-- have, end, and give exactly the line of the reading process. Those of example-II-03.c never end
-- when the caller has room for the line, however many are made, and give no byte of it when the
-- caller has not.
pub cat-current :
    (read : SimpleRead) (task : Task) (max fuel : ℕ)
    → IsSimpleRead read
    → 0 < max
    → (cat piece_read 128 max task 0 [] ≡ some (task_text task, task))
      × (cat (simple_read read) 128 max task 0 [] ≡ some (task_text task, task))
      × (cat whole_read (suc fuel) max task 0 []
          ≡ (if leb (length (task_text task)) max then none else some ([], task)))
cat-current read task max fuel k m =
    let (a, b) = cat-task read task max k m in (a, b, cat-whole_read task max fuel 0 [])
