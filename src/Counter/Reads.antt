-- ===== src/Counter/Reads.antt =====
-- Reading a counter to its end gives its text and steps it once.
use ild.Base.{ℕ, ◌<◌, ◌≡◌, [], some, get_or, set, arith}
use ild.Text.Cat.{cat, cat-read_device}
use ild.Counter.{counter_text, add_int, length-counter_text}
use ild.Counter.Single.{Counter, plain_read, writable_read, stepped_read}
use ild.Counter.Several
use ild.Counter.Several.{Counters}

-- The counters that move by one.
pub cat-plain_read :
    (max counter : ℕ)
    → 0 < max
    → (cat plain_read 128 max counter 0 [] ≡ some (counter_text counter, add_int counter 1))
      × (cat writable_read 128 max counter 0 [] ≡ some (counter_text counter, add_int counter 1))
unfolding plain_read writable_read
cat-plain_read max counter m =
    let short = length-counter_text counter in
    let p =
      cat-read_device counter_text (λ c. add_int c 1) 128 max counter 0 [] m (omega arith)
        (omega arith) (omega arith) in
    (p, p)

-- The counter with a step moves by its step, and keeps it.
pub cat-stepped_read :
    (max : ℕ) (s : Counter)
    → 0 < max
    → cat stepped_read 128 max s 0 []
      ≡ some (counter_text s.counter, record s { counter = add_int s.counter s.step })
unfolding stepped_read
cat-stepped_read max s m =
    let short = length-counter_text s.counter in
    cat-read_device (λ (r : Counter). counter_text r.counter)
      (λ (r : Counter). record r { counter = add_int r.counter r.step }) 128 max s 0 [] m
      (omega arith) (omega arith) (omega arith)

-- One of the eight counters.
pub cat-counter_read :
    (max idx : ℕ) (s : Counters)
    → 0 < max
    → cat (Several.counter_read idx) 128 max s 0 []
      ≡ some (
        counter_text (get_or s.counter idx 0),
        record s {
          counter = set s.counter idx (add_int (get_or s.counter idx 0) (get_or s.step idx 0));
        },
      )
unfolding Several.counter_read
cat-counter_read max idx s m =
    let short = length-counter_text (get_or s.counter idx 0) in
    cat-read_device (λ (r : Counters). counter_text (get_or r.counter idx 0))
      (λ (r : Counters). record r {
        counter = set r.counter idx (add_int (get_or r.counter idx 0) (get_or r.step idx 0));
      })
      128 max s 0 [] m (omega arith) (omega arith) (omega arith)

-- Whatever room it gives each read, a caller that reads a counter until a read returns nothing gets
-- the text of the counter, whole and once, within 128 reads, and the counter has then moved by one,
-- or by its own step; of the eight counters, that counter alone has moved.
cat-counters :
    (max counter idx : ℕ) (s : Counter) (cs : Counters)
    → 0 < max
    → (cat plain_read 128 max counter 0 [] ≡ some (counter_text counter, add_int counter 1))
      × (cat writable_read 128 max counter 0 [] ≡ some (counter_text counter, add_int counter 1))
      × (cat stepped_read 128 max s 0 []
          ≡ some (counter_text s.counter, record s { counter = add_int s.counter s.step }))
      × (cat (Several.counter_read idx) 128 max cs 0 []
          ≡ some (
            counter_text (get_or cs.counter idx 0),
            record cs {
              counter =
                  set cs.counter idx (add_int (get_or cs.counter idx 0) (get_or cs.step idx 0));
            },
          ))
cat-counters max counter idx s cs m =
    let (p, q) = cat-plain_read max counter m in
    (p, q, cat-stepped_read max s m, cat-counter_read max idx cs m)
