-- ===== src/Sata/Config/SetUp.antt =====
-- `set_up_clients` as a whole: it never reads past the table of the disk.
use camkes_vm.Common.{
  ℕ, zero, suc, ◌<◌, ◌≡◌, ◌⊎◌, refl, ap, ◌∙◌, none, some, Option-cases, inl, inr, List, [], ◌∷◌,
  length, get_elem?, arith, u32, ◌+◌, replicate, ◌-◌, ◌++◌,
}
use camkes_vm.Sata.State.{Partition, Client, Server, max_partitions, virt_start_sector, cleared}
use camkes_vm.Sata.Config.{
  place, given, assign_clients, virtual_tables, lay_out, lay_out_all, set_up_clients, virtual_entry,
  filled,
}
use camkes_vm.Sata.Config.Marks.{given-inside}

get_elem?-some :
    (phys : List Partition) (i : ℕ)
    → i < length phys
    → (q : Partition) × (get_elem? phys i ≡ some q)
get_elem?-some [] i h = absurd (omega (arith, h))
get_elem?-some (x ∷ phys) zero h = (x, refl)
get_elem?-some (x ∷ phys) (suc i) h = get_elem?-some phys i (omega (arith, h))

virtual_tables-some :
    (phys : List Partition) (start : ℕ) (ps : List ℕ)
    → ((k p : ℕ) → get_elem? ps k ≡ some p → place p < length phys)
    → (ts : List Partition) × (end : ℕ) × (virtual_tables phys start ps ≡ some (ts, end))
unfolding virtual_tables
virtual_tables-some phys start [] h = ([], start, refl)
virtual_tables-some phys start (p ∷ ps) h =
    let (q, e) = get_elem?-some phys (place p) (h 0 p refl) in
    let (ts, end, f) = virtual_tables-some phys (u32 (start + q.num_sectors)) ps (λ k. h (suc k)) in
    (virtual_entry start q ∷ ts, end, rw (virtual_tables, e, f) refl)

lay_out-some :
    (phys : List Partition) (c : Client)
    → ((k p : ℕ) → get_elem? (given c) k ≡ some p → place p < length phys)
    → (c' : Client) × (lay_out phys c ≡ some c')
unfolding lay_out
lay_out-some phys c h =
    let (ts, end, e) = virtual_tables-some phys virt_start_sector (given c) h in
    (
      record c {
        partition_tables = ts ++ replicate (max_partitions - length ts) cleared;
        capacity = end;
      },
      rw (lay_out, e) refl,
    )

each-cons :
    (phys : List Partition) (c d : Client) (cs ds : List Client)
    → lay_out phys c ≡ some d
    → ((i : ℕ) (b : Client)
        → get_elem? ds i ≡ some b
        → (a : Client) × (get_elem? cs i ≡ some a) × (lay_out phys a ≡ some b))
    → (i : ℕ) (b : Client) → get_elem? (d ∷ ds) i ≡ some b
    → (a : Client) × (get_elem? (c ∷ cs) i ≡ some a) × (lay_out phys a ≡ some b)
each-cons phys c d cs ds e each zero b h = (c, refl, e ∙ h)
each-cons phys c d cs ds e each (suc i) b h = each i b h

-- The clients are laid out one by one.
lay_out_all-some :
    (phys : List Partition) (cs : List Client)
    → ((i k p : ℕ) (c : Client)
        → get_elem? cs i ≡ some c
        → get_elem? (given c) k ≡ some p
        → place p < length phys)
    → (ds : List Client) × (lay_out_all phys cs ≡ some ds)
      × (length ds ≡ length cs)
      × ((i : ℕ) (d : Client)
          → get_elem? ds i ≡ some d
          → (c : Client) × (get_elem? cs i ≡ some c) × (lay_out phys c ≡ some d))
unfolding lay_out_all
lay_out_all-some phys [] h = ([], refl, refl, λ i d e. absurd (ground (arith, e)))
lay_out_all-some phys (c ∷ cs) h =
    let (d, e) = lay_out-some phys c (λ k p. h 0 k p c refl) in
    let (ds, f, len, each) = lay_out_all-some phys cs (λ i k p b. h (suc i) k p b) in
    (d ∷ ds, rw (lay_out_all, e, f) refl, ap suc len, each-cons phys c d cs ds e each)

-- `s'` is `s` with the clients of `config`: refused as a whole, or laid out one by one.
pub record IsSetUp (config : List Client) (s s' : Server) : Type 0 where
  pub done : s'.done_init ≡ 1
  pub refused_or_laid_out :
      ((assign_clients config s.assigned_parts ≡ none) × (s'.invalid_config ≡ 1))
      ⊎ ((assign_clients config s.assigned_parts ≡ some s'.assigned_parts)
          × (s'.invalid_config ≡ s.invalid_config)
          × (length s'.clients ≡ length config)
          × ((i : ℕ) (d : Client)
              → get_elem? s'.clients i ≡ some d
              → (c : Client) × (get_elem? config i ≡ some c)
                × (lay_out s.phys_partition_tables c ≡ some d)))

-- With four marks and a table of four partitions, the set-up of the clients reads no entry past the
-- table. It ends with the server done, and marks the configuration as invalid exactly when a client
-- is refused; else there are as many clients as in the configuration, and each is laid out from its
-- configuration.
pub set_up_clients-IsSetUp :
    (config : List Client) (s : Server)
    → length s.phys_partition_tables ≡ 4
    → length s.assigned_parts ≡ 4
    → (s' : Server) × (set_up_clients config s ≡ some s') × IsSetUp config s s'
unfolding set_up_clients
set_up_clients-IsSetUp config s l m = elim (Option-cases (assign_clients config s.assigned_parts)) [
  | inl e ↦ (
    record s { invalid_config = 1; done_init = 1; clients = filled config s.assigned_parts },
    rw (set_up_clients, e) refl,
    record { done = refl; refused_or_laid_out = inl (e, refl) },
  )
  | inr (n, e) ↦
      let (ds, f, len, each) =
        lay_out_all-some s.phys_partition_tables config (λ i k p c x y.
          omega (arith, l, given-inside config s.assigned_parts n i k p c m e x y)) in
      (
        record s { assigned_parts = n; done_init = 1; clients = ds },
        rw (set_up_clients, e, f) refl,
        record { done = refl; refused_or_laid_out = inr (e, refl, len, each) },
      )
]
