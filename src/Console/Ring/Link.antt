-- ===== src/Console/Ring/Link.antt =====
-- One direction of a connection: a guest that sends characters, and one that takes them, over a
-- shared ring buffer. Their steps interleave in any order.
use camkes_vm.Common.{ℕ, ◌-◌, ◌<◌, ◌≤◌, ◌≡◌, ◌≢◌, List, [], ◌∷◌, ◌++◌}
use camkes_vm.Console.Ring.{SerialShmem, buf_size, next, store, advance, release}
use camkes_vm.Console.Ring.Window.{window, ahead, InBounds}

-- Where the sender stands in `tx_virtcon_forward`: outside, or with a character stored.
pub data Sender : Type 0 where
  idle : Sender
  stored : ℕ → Sender

-- Where the receiver stands in `virtio_con_notify_recv`: outside, with the tail read, or with the
-- characters up to it handed on.
pub data Receiver : Type 0 where
  resting : Receiver
  looked : ℕ → Receiver
  taken : ℕ → Receiver

-- `sent` and `delivered` are the characters so far, the oldest first.
pub record Link : Type 0 where
  pub ring : SerialShmem
  pub sender : Sender
  pub receiver : Receiver
  pub sent : List ℕ
  pub delivered : List ℕ

pub data Step : Link → Link → Type 0 where
  -- `room` is the rule of the protocol: the code does not test it.
  put :
      (l : Link) (c : ℕ)
      → l.sender ≡ idle
      → next l.ring.tail ≢ l.ring.head
      → Step l (record l { ring = store c l.ring; sender = stored c })
  publish :
      (l : Link) (c : ℕ)
      → l.sender ≡ stored c
      → Step l (record l { ring = advance l.ring; sender = idle; sent = l.sent ++ (c ∷ []) })
  look : (l : Link) → l.receiver ≡ resting → Step l (record l { receiver = looked l.ring.tail })
  take :
      (l : Link) (t : ℕ)
      → l.receiver ≡ looked t
      → Step l (record l {
        receiver = taken t;
        delivered = l.delivered ++ window l.ring.buf l.ring.head (ahead l.ring.head t);
      })
  finish :
      (l : Link) (t : ℕ)
      → l.receiver ≡ taken t
      → Step l (record l { ring = release t l.ring; receiver = resting })

pub data Run (l : Link) : Link → Type 0 where
  here : Run l l
  later : {k m : Link} → Run l k → Step k m → Run l m

-- The index from which characters are not handed on.
abbrev pub front : Receiver → ℕ → ℕ
front resting head = head
front (looked t) head = head
front (taken t) head = t

-- The tail that the receiver read lies between the head and the tail.
abbrev pub IsSeen : Receiver → SerialShmem → Type 0
IsSeen resting r = Unit
IsSeen (looked t) r = (t < buf_size) × (ahead r.head t ≤ ahead r.head r.tail)
IsSeen (taken t) r = (t < buf_size) × (ahead r.head t ≤ ahead r.head r.tail)

-- A character that is stored stands at the tail, and there is room for it.
abbrev pub IsStored : Sender → SerialShmem → Type 0
IsStored idle r = Unit
IsStored (stored c) r = (r.buf r.tail ≡ c) × (ahead r.head r.tail < buf_size - 1)

-- The characters that were sent and not handed on.
abbrev pub pending : Link → List ℕ
pending l = let i = front l.receiver l.ring.head in window l.ring.buf i (ahead i l.ring.tail)

pub record IsLink (l : Link) : Type 0 where
  pub bounds : InBounds l.ring
  pub seen : IsSeen l.receiver l.ring
  pub at_tail : IsStored l.sender l.ring
  pub in_order : l.delivered ++ pending l ≡ l.sent
