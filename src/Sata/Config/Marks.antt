-- ===== src/Sata/Config/Marks.antt =====
-- The marks of the partitions that are assigned: no partition is given to two clients.
use camkes_vm.Common.{
  subst, ℕ, zero, suc, ◌<◌, ◌≡◌, ◌≢◌, ap, ◌∙◌, sym, some, Option-cases, inl, inr, List, [], ◌∷◌,
  length, length-set, get_or, get_or-set_self, get_elem?, set, arith, Bool-cases, ◌==◌,
}
use camkes_vm.Sata.State.{Client}
use camkes_vm.Sata.Config.{
  place, check_part_is_assigned, assign_all, given, assign_client, assign_clients,
}

-- Marks are only added, and there are four of them.
record Grown (m m' : List ℕ) : Type 0 where
  four : length m' ≡ 4
  kept : (i : ℕ) → get_or m i 0 ≢ 0 → get_or m' i 0 ≢ 0

-- Grown, and the partition `p` got its mark.
record Added (p : ℕ) (m m' : List ℕ) : Type 0 where
  inside : place p < 4
  grown : Grown m m'
  before : get_or m (place p) 0 ≡ 0
  after : get_or m' (place p) 0 ≢ 0

set-kept : (m : List ℕ) (i k : ℕ) → get_or m k 0 ≢ 0 → get_or (set m i 1) k 0 ≢ 0
set-kept [] i k h = h
set-kept (x ∷ m) zero zero h = λ e. absurd (omega (arith, e))
set-kept (x ∷ m) zero (suc k) h = h
set-kept (x ∷ m) (suc i) zero h = h
set-kept (x ∷ m) (suc i) (suc k) h = set-kept m i k h

check-Added :
    (p : ℕ) (m m' : List ℕ) → length m ≡ 4 → check_part_is_assigned p m ≡ some m' → Added p m m'
unfolding check_part_is_assigned
check-Added p m m' l h =
    let e : set m (place p) 1 ≡ m' = ground (arith, h) in
    let b : place p < 4 = ground (arith, h) in
    record {
      inside = b;
      grown = record {
        four = ap length (sym e) ∙ length-set m (place p) 1 ∙ l;
        kept = λ i k. rw (sym e) (set-kept m (place p) i k);
      };
      before = ground (arith, h);
      after =
          rw (sym e, get_or-set_self m (place p) 1 0 (omega (arith, b, l)))
            (λ x. absurd (omega (arith, x)));
    }

Grown-trans : (m m' n : List ℕ) → Grown m m' → Grown m' n → Grown m n
Grown-trans m m' n g h = record { four = h.four; kept = λ i k. h.kept i (g.kept i k) }

-- What grows later was not marked before either.
unmarked_before : (m m' : List ℕ) (i : ℕ) → Grown m m' → get_or m' i 0 ≡ 0 → get_or m i 0 ≡ 0
unmarked_before m m' i g e = elim (Bool-cases (get_or m i 0 == 0)) [
  | inl b ↦ ground (arith, b)
  | inr b ↦ absurd (g.kept i (λ f. absurd (ground (arith, f, b))) e)
]

assign_all-step :
    (p : ℕ) (ps m m' : List ℕ)
    → assign_all (p ∷ ps) m ≡ some m'
    → (n : List ℕ) × (check_part_is_assigned p m ≡ some n) × (assign_all ps n ≡ some m')
unfolding assign_all
assign_all-step p ps m m' h = elim (Option-cases (check_part_is_assigned p m)) [
  | inl e ↦ absurd (ground (arith, e, h))
  | inr (n, e) ↦ (n, e, ground (arith, e, h))
]

assign_all-Grown : (ps m m' : List ℕ) → length m ≡ 4 → assign_all ps m ≡ some m' → Grown m m'
unfolding assign_all
assign_all-Grown [] m m' l h =
    let e : m ≡ m' = ground (arith, h) in
    record { four = ap length (sym e) ∙ l; kept = λ i. rw e (λ k. k) }
assign_all-Grown (p ∷ ps) m m' l h =
    let (n, e, f) = assign_all-step p ps m m' h in
    let first = check-Added p m n l e in
    Grown-trans m n m' first.grown (assign_all-Grown ps n m' first.grown.four f)

-- A mark that was added before or after some growth.
Added-Grown : (p : ℕ) (m n m' : List ℕ) → Added p m n → Grown n m' → Added p m m'
Added-Grown p m n m' a g = record {
  inside = a.inside;
  grown = Grown-trans m n m' a.grown g;
  before = a.before;
  after = g.kept (place p) a.after;
}

Grown-Added : (p : ℕ) (m n m' : List ℕ) → Grown m n → Added p n m' → Added p m m'
Grown-Added p m n m' g a = record {
  inside = a.inside;
  grown = Grown-trans m n m' g a.grown;
  before = unmarked_before m n (place p) g a.before;
  after = a.after;
}

assign_all-Added :
    (ps m m' : List ℕ) (k p : ℕ)
    → length m ≡ 4
    → assign_all ps m ≡ some m'
    → get_elem? ps k ≡ some p
    → Added p m m'
assign_all-Added [] m m' k p l h e = absurd (ground (arith, e))
assign_all-Added (x ∷ ps) m m' zero p l h e =
    let (n, f, g) = assign_all-step x ps m m' h in
    let first = check-Added x m n l f in
    subst (λ y. Added y m m') (ground (arith, e))
      (Added-Grown x m n m' first (assign_all-Grown ps n m' first.grown.four g))
assign_all-Added (x ∷ ps) m m' (suc k) p l h e =
    let (n, f, g) = assign_all-step x ps m m' h in
    let first = check-Added x m n l f in
    Grown-Added p m n m' first.grown (assign_all-Added ps n m' k p first.grown.four g e)

-- A client is not refused: it has at most four partitions, and they get their marks.
assign_client-all :
    (c : Client) (m m' : List ℕ) → assign_client c m ≡ some m' → assign_all (given c) m ≡ some m'
unfolding assign_client
assign_client-all c m m' h = ground (arith, h)

assign_clients-step :
    (c : Client) (cs : List Client) (m m' : List ℕ)
    → assign_clients (c ∷ cs) m ≡ some m'
    → (n : List ℕ) × (assign_all (given c) m ≡ some n) × (assign_clients cs n ≡ some m')
unfolding assign_clients
assign_clients-step c cs m m' h = elim (Option-cases (assign_client c m)) [
  | inl e ↦ absurd (ground (arith, e, h))
  | inr (n, e) ↦ (n, assign_client-all c m n e, ground (arith, e, h))
]

-- A partition of a client was not marked before the clients were.
assign_clients-unmarked :
    (cs : List Client) (m m' : List ℕ) (i k p : ℕ) (c : Client)
    → length m ≡ 4
    → assign_clients cs m ≡ some m'
    → get_elem? cs i ≡ some c
    → get_elem? (given c) k ≡ some p
    → get_or m (place p) 0 ≡ 0
assign_clients-unmarked [] m m' i k p c l h e f = absurd (ground (arith, e))
assign_clients-unmarked (x ∷ cs) m m' zero k p c l h e f =
    let (n, g, _) = assign_clients-step x cs m m' h in
    let same : x ≡ c = ground (arith, e) in
    (assign_all-Added (given x) m n k p l g (rw same f)).before
assign_clients-unmarked (x ∷ cs) m m' (suc i) k p c l h e f =
    let (n, g, r) = assign_clients-step x cs m m' h in
    let grown = assign_all-Grown (given x) m n l g in
    unmarked_before m n (place p) grown (assign_clients-unmarked cs n m' i k p c grown.four r e f)

-- When no client is refused, no two clients have a partition in common.
pub assign_clients-distinct :
    (cs : List Client) (m m' : List ℕ) (i j k l p q : ℕ) (c d : Client)
    → length m ≡ 4
    → assign_clients cs m ≡ some m'
    → i < j
    → get_elem? cs i ≡ some c
    → get_elem? cs j ≡ some d
    → get_elem? (given c) k ≡ some p
    → get_elem? (given d) l ≡ some q
    → place p ≢ place q
assign_clients-distinct [] m m' i j k l p q c d w h a e f x y = absurd (ground (arith, e))
assign_clients-distinct (z ∷ cs) m m' i zero k l p q c d w h a e f x y = absurd (omega (arith, a))
assign_clients-distinct (z ∷ cs) m m' zero (suc j) k l p q c d w h a e f x y =
    let (n, g, r) = assign_clients-step z cs m m' h in
    let first : z ≡ c = ground (arith, e) in
    let added = assign_all-Added (given z) m n k p w g (rw first x) in
    λ same.
      added.after (
        ap (λ b. get_or n b 0) same
        ∙ assign_clients-unmarked cs n m' j l q d added.grown.four r f y)
assign_clients-distinct (z ∷ cs) m m' (suc i) (suc j) k l p q c d w h a e f x y =
    let (n, g, r) = assign_clients-step z cs m m' h in
    assign_clients-distinct cs n m' i j k l p q c d (assign_all-Grown (given z) m n w g).four r
      (omega (arith, a)) e f x y

-- The partitions of a client that is not refused have entries in a table of four.
pub given-inside :
    (cs : List Client) (m m' : List ℕ) (i k p : ℕ) (c : Client)
    → length m ≡ 4
    → assign_clients cs m ≡ some m'
    → get_elem? cs i ≡ some c
    → get_elem? (given c) k ≡ some p
    → place p < 4
given-inside [] m m' i k p c l h e f = absurd (ground (arith, e))
given-inside (x ∷ cs) m m' zero k p c l h e f =
    let (n, g, _) = assign_clients-step x cs m m' h in
    let same : x ≡ c = ground (arith, e) in
    (assign_all-Added (given x) m n k p l g (rw same f)).inside
given-inside (x ∷ cs) m m' (suc i) k p c l h e f =
    let (n, g, r) = assign_clients-step x cs m m' h in
    given-inside cs n m' i k p c (assign_all-Grown (given x) m n l g).four r e f
