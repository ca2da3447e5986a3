-- ===== src/Serial/Fifo/Queue.antt =====
-- The queues of serial.c hold their bytes in the order of arrival.
use camkes_vm.Common.{
  ℕ, zero, suc, ◌+◌, ◌-◌, ◌%◌, ◌≤◌, ◌<◌, ◌≡◌, refl, ◌∙◌, ap, List, [], ◌∷◌, ◌++◌, arith, length,
  get_or, set, length-set, get_or-set_self, get_or-set_ne,
}
use camkes_vm.Serial.State.{SerialFifo}
use camkes_vm.Serial.Fifo.{FifoId, xmit, recv, next_index, put_byte, get_byte, clear_fifo}

-- The indices stay inside the 16 bytes of storage.
pub record InBounds (f : SerialFifo) : Type 0 where
  pub storage : length f.buf ≡ 16
  pub count_in : f.count ≤ 16
  pub tail_in : f.tail < 16
  pub head_in : f.head < 16

-- The head stands `count` places after the tail.
pub record IsRing (f : SerialFifo) : Type 0 where
  pub bounds : InBounds f
  pub closed : f.head ≡ (f.tail + f.count) % 16

-- the `n` bytes from index `i` on
abbrev pub run_from : List ℕ → ℕ → ℕ → List ℕ
run_from buf i zero = []
run_from buf i (suc n) = get_or buf i 0 ∷ run_from buf (next_index i) n

-- The bytes that a queue holds, the oldest first.
abbrev pub contents : SerialFifo → List ℕ
contents f = run_from f.buf f.tail f.count

pub length-run_from : (buf : List ℕ) (i n : ℕ) → length (run_from buf i n) ≡ n
length-run_from buf i zero = refl
length-run_from buf i (suc n) = ap suc (length-run_from buf (next_index i) n)

next_index_lem : (i : ℕ) → i < 16 → next_index i ≡ (i + 1) % 16
next_index_lem i h = ground arith

-- A byte stored just past a run makes it longer by that byte.
run_from-set :
    (n : ℕ) (buf : List ℕ) (i j c : ℕ)
    → length buf ≡ 16
    → i < 16
    → n < 16
    → j ≡ (i + n) % 16
    → run_from (set buf j c) i (suc n) ≡ run_from buf i n ++ (c ∷ [])
run_from-set zero buf i j c hl hi hn hj =
    ap (λ v. v ∷ [])
      (ap (λ k. get_or (set buf j c) k 0) same ∙ get_or-set_self buf j c 0 (omega arith))
  where
    same : i ≡ j
    same = omega arith
run_from-set (suc n) buf i j c hl hi hn hj =
    ap (λ v. v ∷ run_from (set buf j c) (next_index i) (suc n))
      (get_or-set_ne buf j i c 0 (omega arith))
    ∙ ap (λ l. get_or buf i 0 ∷ l)
        (run_from-set n buf (next_index i) j c hl (omega (arith, next_index_lem i hi)) (omega arith)
          (omega (arith, next_index_lem i hi)))

-- A store at `j` leaves alone a run that does not reach it.
run_from-set_other :
    (n : ℕ) (buf : List ℕ) (i j k c : ℕ)
    → i < 16
    → j < 16
    → i ≡ (j + suc k) % 16
    → k + n < 16
    → run_from (set buf j c) i n ≡ run_from buf i n
run_from-set_other zero buf i j k c hi hj e h = refl
run_from-set_other (suc n) buf i j k c hi hj e h =
    ap (λ v. v ∷ run_from (set buf j c) (next_index i) n) (get_or-set_ne buf j i c 0 (omega arith))
    ∙ ap (λ l. get_or buf i 0 ∷ l)
        (run_from-set_other n buf (next_index i) j (suc k) c (omega (arith, next_index_lem i hi)) hj
          (omega (arith, next_index_lem i hi)) (omega arith))

-- Both queues stay inside their storage.
pub put_byte-InBounds :
    (which : FifoId) (c : ℕ) (f : SerialFifo) → InBounds f → InBounds (put_byte which c f)
unfolding put_byte
put_byte-InBounds xmit c f v = ground (arith, length-set f.buf f.head c)
put_byte-InBounds recv c f v = ground (arith, length-set f.buf f.head c)

pub get_byte-InBounds : (f : SerialFifo) → InBounds f → InBounds (get_byte f).1
unfolding get_byte
get_byte-InBounds f v = ground arith

pub clear_fifo-IsRing : (f : SerialFifo) → IsRing (clear_fifo f)
unfolding clear_fifo
clear_fifo-IsRing f = omega arith

-- The receive queue stays a ring.
pub put_byte-IsRing : (c : ℕ) (f : SerialFifo) → IsRing f → IsRing (put_byte recv c f)
unfolding put_byte
put_byte-IsRing c f v = ground (arith, length-set f.buf f.head c)

pub get_byte-IsRing : (f : SerialFifo) → IsRing f → IsRing (get_byte f).1
unfolding get_byte
get_byte-IsRing f v = ground arith

-- A byte put in a queue with room, of either kind, goes to the end.
pub contents-put_byte :
    (which : FifoId) (c : ℕ) (f : SerialFifo)
    → IsRing f
    → f.count < 16
    → contents (put_byte which c f) ≡ contents f ++ (c ∷ [])
unfolding put_byte
contents-put_byte xmit c f v h =
    ground (arith, run_from-set f.count f.buf f.tail f.head c v.bounds.storage v.bounds.tail_in)
contents-put_byte recv c f v h =
    ground (arith, run_from-set f.count f.buf f.tail f.head c v.bounds.storage v.bounds.tail_in)

-- A full receive queue is left as it is.
pub put_byte_full : (c : ℕ) (f : SerialFifo) → f.count ≡ 16 → put_byte recv c f ≡ f
unfolding put_byte
put_byte_full c f h = ground arith

run_from_pos :
    (buf : List ℕ) (i n : ℕ)
    → 0 < n
    → run_from buf i n ≡ get_or buf i 0 ∷ run_from buf (next_index i) (n - 1)
run_from_pos buf i zero h = absurd (omega arith)
run_from_pos buf i (suc n) h =
    ap (λ k. get_or buf i 0 ∷ run_from buf (next_index i) k) (omega arith)

-- The first byte is taken out, if there is one.
pub contents-get_byte :
    (f : SerialFifo) → 0 < f.count → contents f ≡ (get_byte f).0 ∷ contents (get_byte f).1
unfolding get_byte
contents-get_byte f h = ground (arith, run_from_pos f.buf f.tail f.count)

pub get_byte_empty : (f : SerialFifo) → f.count ≡ 0 → get_byte f ≡ (0, f)
unfolding get_byte
get_byte_empty f h = ground arith

-- A byte put in a full transmit queue takes the place of the oldest one, and comes out first.
xmit_overrun :
    (c : ℕ) (f : SerialFifo)
    → IsRing f
    → f.count ≡ 16
    → contents (put_byte xmit c f) ≡ c ∷ contents (get_byte f).1
unfolding put_byte get_byte
xmit_overrun c f v h = ground (
  arith,
  run_from_pos (set f.buf f.tail c) f.tail f.count,
  get_or-set_self f.buf f.tail c 0,
  run_from-set_other 15 f.buf (next_index f.tail) f.tail 0 c
      (omega (arith, next_index_lem f.tail v.bounds.tail_in)) v.bounds.tail_in
      (omega (arith, next_index_lem f.tail v.bounds.tail_in)) (omega arith),
)
