-- ===== src/Console/Ring/Window.antt =====
-- The characters of a ring buffer from an index on.
use camkes_vm.Common.{
  ℕ, zero, suc, ◌+◌, ◌-◌, ◌%◌, ◌<◌, ◌≤◌, ◌≡◌, refl, ap, ◌∙◌, List, [], ◌∷◌, ◌++◌, length, arith,
}
use camkes_vm.Console.Ring.{SerialShmem, buf_size, next, store}

-- the `n` characters from index `i` on
unfoldable pub window : (ℕ → ℕ) → ℕ → ℕ → List ℕ
window buf i zero = []
window buf i (suc n) = buf i ∷ window buf (next i) n

-- how far index `j` is ahead of index `i`
abbrev pub ahead : ℕ → ℕ → ℕ
ahead i j = (j + buf_size - i) % buf_size

-- The characters that wait, the oldest first.
abbrev pub waiting : SerialShmem → List ℕ
waiting r = window r.buf r.head (ahead r.head r.tail)

pub record InBounds (r : SerialShmem) : Type 0 where
  pub head_in : r.head < buf_size
  pub tail_in : r.tail < buf_size

-- A character stored past a window leaves it alone.
pub window-store :
    (n : ℕ) (r : SerialShmem) (c i : ℕ)
    → i < buf_size
    → r.tail < buf_size
    → n ≤ ahead i r.tail
    → window (store c r).buf i n ≡ window r.buf i n
unfolding window store
window-store zero r c i h k l = refl
window-store (suc n) r c i h k l =
    ap (λ v. v ∷ window (store c r).buf (next i) n) (ground (arith, l))
    ∙ ap (λ v. r.buf i ∷ v) (window-store n r c (next i) (omega arith) k (omega arith))

-- A window in two parts.
pub window-add :
    (m n : ℕ) (buf : ℕ → ℕ) (i : ℕ)
    → i < buf_size
    → window buf i (m + n) ≡ window buf i m ++ window buf ((i + m) % buf_size) n
unfolding window
window-add zero n buf i h =
    let start : i ≡ (i + 0) % buf_size = omega arith in
    ap (λ k. window buf i k) (omega arith) ∙ ap (λ j. window buf j n) start
window-add (suc m) n buf i h =
    let count : suc m + n ≡ suc (m + n) = omega arith in
    let start : (next i + m) % buf_size ≡ (i + suc m) % buf_size = omega arith in
    ap (λ k. window buf i k) count
    ∙ ap (λ v. buf i ∷ v)
        (window-add m n buf (next i) (omega arith)
          ∙ ap (λ j. window buf (next i) m ++ window buf j n) start)

pub length-window : (n : ℕ) (buf : ℕ → ℕ) (i : ℕ) → length (window buf i n) ≡ n
unfolding window
length-window zero buf i = refl
length-window (suc n) buf i = ap suc (length-window n buf (next i))
