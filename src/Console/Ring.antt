-- ===== src/Console/Ring.antt =====
-- The ring buffer `serial_shmem` that two guests share, and the characters in it.
pub mod Window
pub mod Link
pub mod Delivered
use camkes_vm.Common.{ℕ, zero, suc, ◌+◌, ◌-◌, ◌%◌, ◌||◌, Bool, ◌==◌, if◌then◌else◌}

-- the bytes of a page less two words
abbrev pub buf_size : ℕ
buf_size = 4088

abbrev pub newline : ℕ
newline = 10

-- `serial_shmem_t`; `buf` maps an index below `buf_size` to a character.
pub record SerialShmem : Type 0 where
  pub head : ℕ
  pub tail : ℕ
  pub buf : ℕ → ℕ

abbrev pub next : ℕ → ℕ
next i = (i + 1) % buf_size

-- `buffer->buf[buffer->tail] = c`
unfoldable pub store : ℕ → SerialShmem → SerialShmem
store c r = record r { buf = λ j. if j == r.tail then c else r.buf j }

-- `buffer->tail = (buffer->tail + 1) % BUFSIZE`
unfoldable pub advance : SerialShmem → SerialShmem
advance r = record r { tail = next r.tail }

-- whether the other side is notified after a character
unfoldable pub is_time_to_send : ℕ → SerialShmem → Bool
is_time_to_send c r = c == newline || next r.tail == r.head

-- `buffer->head = last_read_tail`
unfoldable pub release : ℕ → SerialShmem → SerialShmem
release last_read_tail r = record r { head = last_read_tail }
