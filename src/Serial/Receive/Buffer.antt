-- ===== src/Serial/Receive/Buffer.antt =====
-- The page of characters from the console, read by `serial_buffer_dequeue` of serial.c.
use camkes_vm.Common.{
  u8, ℕ, zero, suc, ◌+◌, ◌-◌, ◌%◌, ◌<◌, ◌≡◌, ◌≢◌, ap, ◌∙◌, none, some, List, [], ◌∷◌, arith, get_or,
  ◌^◌,
}
use camkes_vm.Serial.Receive.{GetcharBuf, getchar_size, serial_buffer_dequeue}

-- Both indices point into the page.
pub record IsPage (b : GetcharBuf) : Type 0 where
  pub head_in : b.head < getchar_size
  pub tail_in : b.tail < getchar_size

-- `n` characters from index `i` on, as bytes
abbrev pub chars_from : List ℕ → ℕ → ℕ → List ℕ
chars_from chars i zero = []
chars_from chars i (suc n) = u8 (get_or chars i 0) ∷ chars_from chars ((i + 1) % getchar_size) n

-- how many characters wait between the head and the tail
abbrev pub backlog : GetcharBuf → ℕ
backlog b = (b.tail + getchar_size - b.head) % getchar_size

-- The characters that wait, the oldest first.
abbrev pub waiting : GetcharBuf → List ℕ
waiting b = chars_from b.chars b.head (backlog b)

-- The page after one character is taken.
abbrev advance : GetcharBuf → GetcharBuf
advance b = record b { head = (b.head + 1) % 2 ^ 32 % getchar_size }

waiting_step :
    (b : GetcharBuf)
    → IsPage b
    → b.head ≢ b.tail
    → waiting b ≡ u8 (get_or b.chars b.head 0) ∷ waiting (advance b)
waiting_step b v ne =
    ap (chars_from b.chars b.head) count
    ∙ ap (λ i. u8 (get_or b.chars b.head 0) ∷ chars_from b.chars i (backlog (advance b))) index
  where
    count : backlog b ≡ suc (backlog (advance b))
    count = omega arith

    index : (b.head + 1) % getchar_size ≡ (b.head + 1) % 2 ^ 32 % getchar_size
    index = omega arith

-- `serial_buffer_dequeue` finds nothing only when nothing waits.
pub serial_buffer_dequeue-none :
    (b : GetcharBuf) → IsPage b → serial_buffer_dequeue b ≡ none → waiting b ≡ []
unfolding serial_buffer_dequeue
serial_buffer_dequeue-none b v e = ap (chars_from b.chars b.head) nothing
  where
    same : b.head ≡ b.tail
    same = ground arith

    nothing : backlog b ≡ 0
    nothing = omega (arith, same)

-- Else it takes the oldest character.
pub serial_buffer_dequeue-some :
    (b b' : GetcharBuf) (c : ℕ)
    → IsPage b
    → serial_buffer_dequeue b ≡ some (c, b')
    → IsPage b' × (waiting b ≡ c ∷ waiting b')
unfolding serial_buffer_dequeue
serial_buffer_dequeue-some b b' c v e =
    let (ne, hc, hb) = dequeued in rw (← hc, ← hb) (omega arith, waiting_step b v ne)
  where
    dequeued : (b.head ≢ b.tail) × (u8 (get_or b.chars b.head 0) ≡ c) × (advance b ≡ b')
    dequeued = ground arith
