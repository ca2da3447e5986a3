-- ===== src/Console/Ring/Delivered.antt =====
-- Every step of a link keeps the characters in order.
use camkes_vm.Common.{
  ℕ, ◌+◌, ◌-◌, ◌%◌, ◌<◌, ◌≤◌, ◌≡◌, ◌≢◌, refl, ap, ◌∙◌, sym, [], ◌∷◌, ◌++◌, arith, subst,
}
use mathlib.Core.List.{append_assoc}
use camkes_vm.Console.Ring.{SerialShmem, buf_size, next, store, advance, release}
use camkes_vm.Console.Ring.Window.{window, ahead, InBounds, window-store, window-add}
use camkes_vm.Console.Ring.Link.{
  Sender, idle, stored, Receiver, resting, looked, taken, Link, Step, put, publish, look, take,
  finish, Run, here, later, front, IsSeen, IsStored, pending, IsLink,
}

-- Distances add up around the ring.
ahead_add :
    (i j k : ℕ)
    → i < buf_size
    → j < buf_size
    → k < buf_size
    → ahead i j ≤ ahead i k
    → ahead i k ≡ ahead i j + ahead j k
ahead_add i j k h l m n = omega arith

ahead_back : (i j : ℕ) → i < buf_size → j < buf_size → (i + ahead i j) % buf_size ≡ j
ahead_back i j h l = omega arith

ahead-next :
    (i j : ℕ)
    → i < buf_size
    → j < buf_size
    → ahead i j < buf_size - 1
    → ahead i (next j) ≡ ahead i j + 1
ahead-next i j h l m = omega arith

-- The front is an index, no farther from the tail than the head is.
front_lem :
    (x : Receiver) (r : SerialShmem)
    → InBounds r
    → IsSeen x r
    → (front x r.head < buf_size) × (ahead (front x r.head) r.tail ≤ ahead r.head r.tail)
front_lem resting r b s = omega (arith, b.head_in)
front_lem (looked t) r b s = omega (arith, b.head_in)
front_lem (taken t) r b (h, l) = omega (arith, h, l, b.head_in, b.tail_in)

-- What was seen stays so, when the tail moves on.
IsSeen-grown :
    (x : Receiver) (r s : SerialShmem)
    → s.head ≡ r.head
    → ahead r.head r.tail ≤ ahead s.head s.tail
    → IsSeen x r
    → IsSeen x s
IsSeen-grown resting r s e l v = tt
IsSeen-grown (looked t) r s e l (h, k) = omega (arith, e, l, h, k)
IsSeen-grown (taken t) r s e l (h, k) = omega (arith, e, l, h, k)

put-IsLink :
    (l : Link) (c : ℕ)
    → l.sender ≡ idle
    → next l.ring.tail ≢ l.ring.head
    → IsLink l
    → IsLink (record l { ring = store c l.ring; sender = stored c })
unfolding store
put-IsLink l c e room v =
    let (i, k) = front_lem l.receiver l.ring v.bounds v.seen in
    record {
      bounds = record { head_in = v.bounds.head_in; tail_in = v.bounds.tail_in };
      seen = IsSeen-grown l.receiver l.ring (store c l.ring) refl (omega arith) v.seen;
      at_tail = (ground arith, ground (arith, room, v.bounds.head_in, v.bounds.tail_in));
      in_order =
          ap (λ w. l.delivered ++ w)
            (window-store (ahead (front l.receiver l.ring.head) l.ring.tail) l.ring c
              (front l.receiver l.ring.head) i v.bounds.tail_in (omega arith))
          ∙ v.in_order;
    }

publish-IsLink :
    (l : Link) (c : ℕ)
    → l.sender ≡ stored c
    → IsLink l
    → IsLink (record l { ring = advance l.ring; sender = idle; sent = l.sent ++ (c ∷ []) })
unfolding advance window
publish-IsLink l c e v =
    let (i, k) = front_lem l.receiver l.ring v.bounds v.seen in
    let (at, room) = subst (λ x. IsStored x l.ring) e v.at_tail in
    let f = front l.receiver l.ring.head in
    let n = ahead f l.ring.tail in
    let grown : ahead f (next l.ring.tail) ≡ n + 1 =
      ahead-next f l.ring.tail i v.bounds.tail_in (omega (arith, k, room)) in
    let last : l.ring.buf ((f + n) % buf_size) ≡ c =
      ap l.ring.buf (ahead_back f l.ring.tail i v.bounds.tail_in) ∙ at in
    record {
      bounds = record { head_in = v.bounds.head_in; tail_in = omega arith };
      seen =
          IsSeen-grown l.receiver l.ring (advance l.ring) refl
            (omega (arith, room, v.bounds.head_in, v.bounds.tail_in)) v.seen;
      at_tail = tt;
      in_order =
          ap (λ m. l.delivered ++ window l.ring.buf f m) grown
          ∙ ap (λ w. l.delivered ++ w) (window-add n 1 l.ring.buf f i)
          ∙ ap (λ d. l.delivered ++ (window l.ring.buf f n ++ (d ∷ []))) last
          ∙ sym (append_assoc l.delivered (window l.ring.buf f n) (c ∷ []))
          ∙ ap (λ w. w ++ (c ∷ [])) v.in_order;
    }

look-IsLink :
    (l : Link)
    → l.receiver ≡ resting
    → IsLink l
    → IsLink (record l { receiver = looked l.ring.tail })
look-IsLink l e v = record {
  bounds = v.bounds;
  seen = (v.bounds.tail_in, omega arith);
  at_tail = v.at_tail;
  in_order =
      ap
        (λ x.
          l.delivered
          ++ window l.ring.buf (front x l.ring.head) (ahead (front x l.ring.head) l.ring.tail))
        (sym e)
      ∙ v.in_order;
}

take-IsLink :
    (l : Link) (t : ℕ)
    → l.receiver ≡ looked t
    → IsLink l
    → IsLink (record l {
      receiver = taken t;
      delivered = l.delivered ++ window l.ring.buf l.ring.head (ahead l.ring.head t);
    })
take-IsLink l t e v =
    let (t_in, far) = subst (λ x. IsSeen x l.ring) e v.seen in
    let head = l.ring.head in
    let buf = l.ring.buf in
    let rest = ahead t l.ring.tail in
    let add : ahead head l.ring.tail ≡ ahead head t + rest =
      ahead_add head t l.ring.tail v.bounds.head_in t_in v.bounds.tail_in far in
    record {
      bounds = v.bounds;
      seen = (t_in, far);
      at_tail = v.at_tail;
      in_order =
          append_assoc l.delivered (window buf head (ahead head t)) (window buf t rest)
          ∙ ap (λ i. l.delivered ++ (window buf head (ahead head t) ++ window buf i rest))
              (sym (ahead_back head t v.bounds.head_in t_in))
          ∙ ap (λ w. l.delivered ++ w)
              (sym (window-add (ahead head t) rest buf head v.bounds.head_in))
          ∙ ap (λ n. l.delivered ++ window buf head n) (sym add)
          ∙ ap (λ x. l.delivered ++ window buf (front x head) (ahead (front x head) l.ring.tail))
              (sym e)
          ∙ v.in_order;
    }

IsStored-released :
    (x : Sender) (r : SerialShmem) (t : ℕ)
    → t < buf_size
    → InBounds r
    → ahead r.head t ≤ ahead r.head r.tail
    → IsStored x r
    → IsStored x (release t r)
unfolding release
IsStored-released idle r t h b l v = tt
IsStored-released (stored c) r t h b l (at, room) =
    (at, omega (arith, h, b.head_in, b.tail_in, l, room))

finish-IsLink :
    (l : Link) (t : ℕ)
    → l.receiver ≡ taken t
    → IsLink l
    → IsLink (record l { ring = release t l.ring; receiver = resting })
unfolding release
finish-IsLink l t e v =
    let (t_in, far) = subst (λ x. IsSeen x l.ring) e v.seen in
    record {
      bounds = record { head_in = t_in; tail_in = v.bounds.tail_in };
      seen = tt;
      at_tail = IsStored-released l.sender l.ring t t_in v.bounds far v.at_tail;
      in_order =
          ap
            (λ x.
              l.delivered
              ++ window l.ring.buf (front x l.ring.head) (ahead (front x l.ring.head) l.ring.tail))
            (sym e)
          ∙ v.in_order;
    }

Step-IsLink : {l m : Link} → Step l m → IsLink l → IsLink m
Step-IsLink (put l c e room) v = put-IsLink l c e room v
Step-IsLink (publish l c e) v = publish-IsLink l c e v
Step-IsLink (look l e) v = look-IsLink l e v
Step-IsLink (take l t e) v = take-IsLink l t e v
Step-IsLink (finish l t e) v = finish-IsLink l t e v

-- An empty link.
abbrev pub start : (ℕ → ℕ) → Link
start buf = record {
  ring = record { head = 0; tail = 0; buf = buf };
  sender = idle;
  receiver = resting;
  sent = [];
  delivered = [];
}

start-IsLink : (buf : ℕ → ℕ) → IsLink (start buf)
unfolding window
start-IsLink buf = record {
  bounds = record { head_in = omega arith; tail_in = omega arith };
  seen = tt;
  at_tail = tt;
  in_order = refl;
}

Run-IsLink : {l m : Link} → Run l m → IsLink l → IsLink m
Run-IsLink here v = v
Run-IsLink (later r e) v = Step-IsLink e (Run-IsLink r v)

-- However the steps of a sender and a receiver interleave on a ring that starts empty, and as long
-- as the sender starts no character while the ring is full: the characters handed on are those
-- sent, in order, up to those that still wait in the ring.
pub sent-delivered :
    (buf : ℕ → ℕ) (l : Link) → Run (start buf) l → l.delivered ++ pending l ≡ l.sent
sent-delivered buf l r = (Run-IsLink r (start-IsLink buf)).in_order
