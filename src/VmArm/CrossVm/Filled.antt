-- ===== src/VmArm/CrossVm/Filled.antt =====
-- The array of connections is filled.
use camkes_vm.Common.{
  length-snoc, set-append, ℕ, zero, suc, ◌+◌, ◌<◌, ◌≤◌, ◌≡◌, refl, sym, ap, ap₂, ◌∙◌, Bool, true,
  false, not, Bool-cases, inl, inr, Option, none, some, List, [], ◌∷◌, ◌++◌, length, set,
  length-set, replicate, ltb, arith, if◌then◌else◌, ◌==◌,
}
use mathlib.Core.List.{append-nil, append_assoc}
use camkes_vm.VmArm.CrossVm.{
  Connection, CrossvmHandle, connected, written_past, handle_of, and_next, setup_connection,
  connect_list, connect_section, sectioned, cross_vm_connections_init,
}

-- whether a pointer comes after one that is NULL
abbrev pub has_gap : List (Option Connection) → Bool
has_gap [] = false
has_gap (none ∷ ps) = not (sectioned ps == 0)
has_gap (some c ∷ ps) = has_gap ps

abbrev pub handles : List Connection → List (Option CrossvmHandle)
handles [] = []
handles (c ∷ cs) = some (handle_of c) ∷ handles cs

abbrev pub section_handles : List (Option Connection) → List (Option CrossvmHandle)
section_handles [] = []
section_handles (none ∷ ps) = section_handles ps
section_handles (some c ∷ ps) = some (handle_of c) ∷ section_handles ps

module _ (memory : ℕ → Bool) (has_memory : (i : ℕ) → memory i ≡ true) where
  length-end :
      (done rest : List (Option CrossvmHandle)) → length done < length (done ++ (none ∷ rest))
  length-end [] rest = omega arith
  length-end (d ∷ done) rest = omega (arith, length-end done rest)

  setup_connection-end :
      (done rest : List (Option CrossvmHandle)) (i : ℕ) (c : Connection)
      → i ≡ length done
      → setup_connection memory (done ++ (none ∷ rest)) i c
        ≡ connected ((done ++ (some (handle_of c) ∷ [])) ++ rest)
  unfolding setup_connection
  setup_connection-end done rest i c e =
      let fits : ltb i (length (done ++ (none ∷ rest))) ≡ true =
        ground (arith, e, length-end done rest) in
      rw (setup_connection, has_memory i, fits, e)
        (ap connected (set-append done rest none (some (handle_of c))))

  length-filled :
      (done : List (Option CrossvmHandle)) (n : ℕ)
      → length (done ++ replicate n none) ≡ length done + n
  length-filled [] zero = refl
  length-filled [] (suc n) = omega (arith, length-filled [] n)
  length-filled (d ∷ done) n = omega (arith, length-filled done n)

  setup_connection-inside :
      (arr : List (Option CrossvmHandle)) (i : ℕ) (c : Connection)
      → ltb i (length arr) ≡ true
      → setup_connection memory arr i c ≡ connected (set arr i (some (handle_of c)))
  unfolding setup_connection
  setup_connection-inside arr i c fits = rw (setup_connection, has_memory i, fits) refl

  setup_connection-past :
      (arr : List (Option CrossvmHandle)) (i : ℕ) (c : Connection)
      → length arr ≤ i
      → setup_connection memory arr i c ≡ written_past
  unfolding setup_connection
  setup_connection-past arr i c h =
      let past : ltb i (length arr) ≡ false = ground (arith, h) in
      rw (setup_connection, has_memory i, past) refl

  connect_list-handles :
      (cs : List Connection) (i k n : ℕ) (done : List (Option CrossvmHandle))
      → i ≡ length done
      → n ≡ length cs + k
      → connect_list memory i cs (done ++ replicate n none)
        ≡ connected ((done ++ handles cs) ++ replicate k none)
  unfolding connect_list
  connect_list-handles [] i k n done e f = ap connected (
      ap₂ (λ l m. l ++ replicate m none) (sym (append-nil done))
        (let g : n ≡ k = omega (arith, f) in g))
  connect_list-handles (c ∷ cs) i k zero done e f = absurd (omega (arith, f))
  connect_list-handles (c ∷ cs) i k (suc n) done e f =
      let here : List (Option CrossvmHandle) = some (handle_of c) ∷ [] in
      ap (λ r. and_next r (connect_list memory (i + 1) cs))
        (setup_connection-end done (replicate n none) i c e)
      ∙ connect_list-handles cs (i + 1) k n (done ++ here)
          (omega (arith, e, length-snoc done (some (handle_of c)))) (omega (arith, f))
      ∙ ap (λ l. connected (l ++ replicate k none)) (append_assoc done here (handles cs))

  length-handles : (cs : List Connection) → length cs ≡ length (handles cs)
  length-handles [] = refl
  length-handles (c ∷ cs) = ap suc (length-handles cs)

  -- past the last connection
  connect_section-rest :
      (ps : List (Option Connection)) (i : ℕ) (arr : List (Option CrossvmHandle))
      → sectioned ps ≡ 0
      → (connect_section memory i ps arr ≡ connected arr) × (section_handles ps ≡ [])
  unfolding connect_section
  connect_section-rest [] i arr h = (refl, refl)
  connect_section-rest (none ∷ ps) i arr h = connect_section-rest ps (i + 1) arr h
  connect_section-rest (some c ∷ ps) i arr h = absurd (omega (arith, h))

  connect_section-handles :
      (ps : List (Option Connection)) (i n : ℕ) (done : List (Option CrossvmHandle))
      → has_gap ps ≡ false
      → i ≡ length done
      → n ≡ sectioned ps
      → connect_section memory i ps (done ++ replicate n none)
        ≡ connected (done ++ section_handles ps)
  unfolding connect_section
  connect_section-handles [] i n done g e f = ap (λ m. connected (done ++ replicate m none)) f
  connect_section-handles (none ∷ ps) i n done g e f =
      let zero_left : sectioned ps ≡ 0 = ground (arith, g) in
      let (stays, nothing) = connect_section-rest ps (i + 1) (done ++ replicate n none) zero_left in
      stays
      ∙ ap (λ m. connected (done ++ replicate m none)) (f ∙ zero_left)
      ∙ ap (λ l. connected (done ++ l)) (sym nothing)
  connect_section-handles (some c ∷ ps) i zero done g e f = absurd (omega (arith, f))
  connect_section-handles (some c ∷ ps) i (suc n) done g e f =
      let here : List (Option CrossvmHandle) = some (handle_of c) ∷ [] in
      ap (λ r. and_next r (connect_section memory (i + 1) ps))
        (setup_connection-end done (replicate n none) i c e)
      ∙ connect_section-handles ps (i + 1) n (done ++ here) g
          (omega (arith, e, length-snoc done (some (handle_of c)))) (omega (arith, f))
      ∙ ap connected (append_assoc done here (section_handles ps))

  connect_section-past :
      (ps : List (Option Connection)) (i : ℕ) (arr : List (Option CrossvmHandle))
      → 0 < sectioned ps
      → length arr < i + sectioned ps
      → connect_section memory i ps arr ≡ written_past
  unfolding connect_section
  connect_section-past [] i arr g h = absurd (omega (arith, g))
  connect_section-past (none ∷ ps) i arr g h =
      connect_section-past ps (i + 1) arr g (omega (arith, h))
  connect_section-past (some c ∷ ps) i arr g h = elim (Bool-cases (ltb i (length arr))) [
    | inr past ↦
        ap (λ r. and_next r (connect_section memory (i + 1) ps))
          (setup_connection-past arr i c (ground (arith, past)))
    | inl fits ↦
        let arr' = set arr i (some (handle_of c)) in
        let same : length arr' ≡ length arr = length-set arr i (some (handle_of c)) in
        ap (λ r. and_next r (connect_section memory (i + 1) ps))
          (setup_connection-inside arr i c fits)
        ∙ connect_section-past ps (i + 1) arr' (ground (arith, fits, h)) (omega (arith, same, h))
  ]

  connect_section-gap :
      (ps : List (Option Connection)) (i n : ℕ) (done : List (Option CrossvmHandle))
      → has_gap ps ≡ true
      → i ≡ length done
      → n ≡ sectioned ps
      → connect_section memory i ps (done ++ replicate n none) ≡ written_past
  unfolding connect_section
  connect_section-gap [] i n done g e f = absurd (ground (arith, g))
  connect_section-gap (none ∷ ps) i n done g e f =
      connect_section-past ps (i + 1) (done ++ replicate n none) (ground (arith, g))
        (omega (arith, e, f, length-filled done n))
  connect_section-gap (some c ∷ ps) i zero done g e f = absurd (omega (arith, f))
  connect_section-gap (some c ∷ ps) i (suc n) done g e f =
      let here : List (Option CrossvmHandle) = some (handle_of c) ∷ [] in
      ap (λ r. and_next r (connect_section memory (i + 1) ps))
        (setup_connection-end done (replicate n none) i c e)
      ∙ connect_section-gap ps (i + 1) n (done ++ here) g
          (omega (arith, e, length-snoc done (some (handle_of c)))) (omega (arith, f))

  -- Where there is memory for all that is allocated, the array that is passed on holds the
  -- connections and then those of the section, in order and with no hole, exactly when no pointer
  -- of the section comes after one that is NULL; else the loop over the section writes past the end
  -- of the array.
  pub cross_vm_connections_init-handles :
      (cs : List Connection) (ps : List (Option Connection))
      → cross_vm_connections_init memory true cs ps
        ≡ (if has_gap ps then written_past else connected (handles cs ++ section_handles ps))
  unfolding cross_vm_connections_init
  cross_vm_connections_init-handles cs ps =
      let filled =
        connect_list-handles cs 0 (sectioned ps) (length cs + sectioned ps) [] refl refl in
      let start : length cs ≡ length (handles cs) = length-handles cs in
      ap (λ r. and_next r (connect_section memory (length cs) ps)) filled
      ∙ elim (Bool-cases (has_gap ps)) [
        | inl g ↦ rw g (connect_section-gap ps (length cs) (sectioned ps) (handles cs) g start refl)
        | inr g ↦
            rw g (connect_section-handles ps (length cs) (sectioned ps) (handles cs) g start refl)
      ]
