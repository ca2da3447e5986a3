-- ===== src/Serial/Fifo/Run.antt =====
-- The receive queue of serial.c against a queue of at most 16 bytes that drops what does not fit.
use camkes_vm.Common.{
  ℕ, ◌≡◌, refl, sym, ap, ◌∙◌, List, [], ◌∷◌, ◌++◌, arith, length, ltb, if◌then◌else◌,
}
use native.Mathlib.Decide.{dec_lt}
use camkes_vm.Serial.State.{SerialFifo}
use camkes_vm.Serial.Fifo.{recv, put_byte, get_byte}
use camkes_vm.Serial.Fifo.Queue.{
  IsRing, run_from, contents, length-run_from, put_byte-IsRing, get_byte-IsRing, contents-put_byte,
  put_byte_full, contents-get_byte, get_byte_empty,
}

-- What the device and the guest do with the queue.
pub data FifoOp : Type 0 where
  put : ℕ → FifoOp
  get : FifoOp

-- The bytes that the calls of `fifo_get` return, over a sequence of calls.
unfoldable pub returned : List FifoOp → SerialFifo → List ℕ
returned [] f = []
returned (put c ∷ ops) f = returned ops (put_byte recv c f)
returned (get ∷ ops) f = let (c, g) = get_byte f in c ∷ returned ops g

abbrev pub spec_put : ℕ → List ℕ → List ℕ
spec_put c q = if ltb (length q) 16 then q ++ (c ∷ []) else q

-- The same of the abstract queue, where an empty queue gives 0.
unfoldable pub spec_returned : List FifoOp → List ℕ → List ℕ
spec_returned [] q = []
spec_returned (put c ∷ ops) q = spec_returned ops (spec_put c q)
spec_returned (get ∷ ops) [] = 0 ∷ spec_returned ops []
spec_returned (get ∷ ops) (c ∷ q) = c ∷ spec_returned ops q

contents_put :
    (c : ℕ) (f : SerialFifo) → IsRing f → contents (put_byte recv c f) ≡ spec_put c (contents f)
contents_put c f v =
    ground
      (arith, length-run_from f.buf f.tail f.count, contents-put_byte recv c f v, put_byte_full c f)

contents_empty : (f : SerialFifo) → f.count ≡ 0 → contents f ≡ []
contents_empty f h = ap (run_from f.buf f.tail) h

spec_get :
    (ops : List FifoOp) (f : SerialFifo)
    → (get_byte f).0 ∷ spec_returned ops (contents (get_byte f).1)
      ≡ spec_returned (get ∷ ops) (contents f)
unfolding spec_returned
spec_get ops f = elim (dec_lt 0 f.count) [
  | yes h ↦ sym (ap (spec_returned (get ∷ ops)) (contents-get_byte f h))
  | no h ↦
      ap (λ p. p.0 ∷ spec_returned ops (contents p.1)) (get_byte_empty f (omega arith))
      ∙ ap (λ q. 0 ∷ spec_returned ops q) (contents_empty f (omega arith))
      ∙ sym (ap (spec_returned (get ∷ ops)) (contents_empty f (omega arith)))
]

-- Any sequence of puts and gets on a receive queue returns what a queue of at most 16 bytes returns
-- that drops what does not fit and gives 0 when empty.
pub returned_refines :
    (ops : List FifoOp) (f : SerialFifo)
    → IsRing f
    → returned ops f ≡ spec_returned ops (contents f)
unfolding returned spec_returned
returned_refines [] f v = refl
returned_refines (put c ∷ ops) f v =
    returned_refines ops (put_byte recv c f) (put_byte-IsRing c f v)
    ∙ ap (spec_returned ops) (contents_put c f v)
returned_refines (get ∷ ops) f v =
    ap (λ l. (get_byte f).0 ∷ l) (returned_refines ops (get_byte f).1 (get_byte-IsRing f v))
    ∙ spec_get ops f
