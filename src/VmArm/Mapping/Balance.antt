-- ===== src/VmArm/Mapping/Balance.antt =====
-- What a mapping holds: the slots and the untyped allocations that it was given and has not freed.
use camkes_vm.Common.{
  ℕ, zero, suc, ◌+◌, ◌*◌, ◌%◌, ◌^◌, ◌≡◌, ◌∙◌, ap, Bool-cases, Option, none, some, Option-cases, inl,
  inr, List, [], ◌∷◌, ◌++◌, u32, arith, if◌then◌else◌, ◌==◌,
}
use camkes_vm.VmArm.Mapping.{
  Call, cspace_alloc, utspace_alloc_at, get_frame_cap, cnode_delete, utspace_free, cspace_free,
  Untyped, granted, copied, unavailable, cookie_of, Host, Frame, Frames, complete, short, stopped,
  free_cookie, release_frames, get_frames,
}

-- whether an answer is `x`, as a number
abbrev pub gives : ℕ → Option ℕ → ℕ
gives x none = 0
gives x (some y) = if y == x then 1 else 0

-- how often a log frees the slot or the cookie `x`
abbrev pub freed_slots : ℕ → List Call → ℕ
freed_slots x [] = 0
freed_slots x (cspace_free s ∷ log) = gives x (some s) + freed_slots x log
freed_slots x (_ ∷ log) = freed_slots x log

abbrev pub freed_cookies : ℕ → List Call → ℕ
freed_cookies x [] = 0
freed_cookies x (utspace_free b c ∷ log) = gives x (some c) + freed_cookies x log
freed_cookies x (_ ∷ log) = freed_cookies x log

-- how many of some frames have the slot or the cookie `x`
abbrev pub slot_count : ℕ → List Frame → ℕ
slot_count x [] = 0
slot_count x (f ∷ fs) = gives x (some f.slot) + slot_count x fs

abbrev pub cookie_count : ℕ → List Frame → ℕ
cookie_count x [] = 0
cookie_count x (f ∷ fs) = gives x f.cookie + cookie_count x fs

-- the cookie that an allocation gives, and the one that a copy leaves unset
abbrev pub given_of : Untyped → Option ℕ
given_of (granted c) = some c
given_of (copied g) = none
given_of unavailable = none

abbrev pub unset_of : Untyped → Option ℕ
unset_of (granted c) = none
unset_of (copied g) = g
unset_of unavailable = none

abbrev pub or_none : Option (Option ℕ) → Option ℕ
or_none none = none
or_none (some c) = c

gives-or_none :
    (x : ℕ) (u : Untyped)
    → gives x (given_of u) + gives x (unset_of u) ≡ gives x (or_none (cookie_of u))
gives-or_none x (granted c) = omega arith
gives-or_none x (copied g) = omega arith
gives-or_none x unavailable = omega arith

pub gives-cookie_of :
    (x : ℕ) (u : Untyped) (o : Option (Option ℕ))
    → cookie_of u ≡ o
    → gives x (given_of u) + gives x (unset_of u) ≡ gives x (or_none o)
gives-cookie_of x u o e = gives-or_none x u ∙ ap (λ p. gives x (or_none p)) e

slot_count-snoc :
    (x : ℕ) (fs : List Frame) (f : Frame)
    → slot_count x (fs ++ (f ∷ [])) ≡ slot_count x fs + gives x (some f.slot)
slot_count-snoc x [] f = omega arith
slot_count-snoc x (g ∷ fs) f = omega (arith, slot_count-snoc x fs f)

cookie_count-snoc :
    (x : ℕ) (fs : List Frame) (f : Frame)
    → cookie_count x (fs ++ (f ∷ [])) ≡ cookie_count x fs + gives x f.cookie
cookie_count-snoc x [] f = omega arith
cookie_count-snoc x (g ∷ fs) f = omega (arith, cookie_count-snoc x fs f)

module _ (host : Host) where
  -- how often a log is given the slot or the cookie `x`
  abbrev pub given_slots : ℕ → List Call → ℕ
  given_slots x [] = 0
  given_slots x (cspace_alloc ∷ log) = gives x (host.slot (cspace_alloc ∷ log)) + given_slots x log
  given_slots x (_ ∷ log) = given_slots x log

  abbrev pub given_cookies : ℕ → List Call → ℕ
  given_cookies x [] = 0
  given_cookies x (utspace_alloc_at s b p ∷ log) =
      gives x (given_of (host.untyped (utspace_alloc_at s b p ∷ log))) + given_cookies x log
  given_cookies x (_ ∷ log) = given_cookies x log

  -- how often `x` is what a cookie holds that was not set
  abbrev pub unset_cookies : ℕ → List Call → ℕ
  unset_cookies x [] = 0
  unset_cookies x (utspace_alloc_at s b p ∷ log) =
      gives x (unset_of (host.untyped (utspace_alloc_at s b p ∷ log))) + unset_cookies x log
  unset_cookies x (_ ∷ log) = unset_cookies x log

  -- From `log` to `log'`, what is held went from the frames `fs` to the frames `gs`, with cookies
  -- that were not set taken for those of allocations.
  pub record Holds (fs gs : List Frame) (log log' : List Call) : Type 0 where
    pub slots_held :
        (x : ℕ)
        → given_slots x log' + freed_slots x log + slot_count x fs
          ≡ given_slots x log + freed_slots x log' + slot_count x gs
    pub cookies_held :
        (x : ℕ)
        → given_cookies x log' + unset_cookies x log' + freed_cookies x log + cookie_count x fs
          ≡ given_cookies x log + unset_cookies x log + freed_cookies x log' + cookie_count x gs

  pub Holds-trans :
      (fs gs hs : List Frame) (log log' log'' : List Call)
      → Holds fs gs log log'
      → Holds gs hs log' log''
      → Holds fs hs log log''
  Holds-trans fs gs hs log log' log'' h k = record {
    slots_held = λ x. omega (arith, h.slots_held x, k.slots_held x);
    cookies_held = λ x. omega (arith, h.cookies_held x, k.cookies_held x);
  }

  pub release_frames-Holds :
      (bits : ℕ) (fs : List Frame) (log : List Call) → Holds fs [] log (release_frames bits fs log)
  unfolding release_frames
  release_frames-Holds bits [] log = record {
    slots_held = λ x. omega arith;
    cookies_held = λ x. omega arith;
  }
  release_frames-Holds bits (f ∷ fs) log =
      let r =
        release_frames-Holds bits fs
          (cspace_free f.slot ∷ free_cookie bits f.cookie (cnode_delete f.slot ∷ log)) in
      elim (Option-cases f.cookie) [
        | inl e ↦ record {
          slots_held = λ x. ground (arith, e, r.slots_held x);
          cookies_held = λ x. ground (arith, e, r.cookies_held x);
        }
        | inr (c, e) ↦ record {
          slots_held = λ x. ground (arith, e, r.slots_held x);
          cookies_held = λ x. ground (arith, e, r.cookies_held x);
        }
      ]

  -- What the loop over the pages holds at its end.
  abbrev pub Collected : List Frame → List Call → Frames × List Call → Type 0
  Collected fs log (complete gs, log') = Holds fs gs log log'
  Collected fs log (short gs, log') = Holds fs gs log log'
  Collected fs log (stopped, log') = Unit

  Collected-after :
      (fs gs : List Frame) (log log' : List Call) (r : Frames × List Call)
      → Holds fs gs log log'
      → Collected gs log' r
      → Collected fs log r
  Collected-after fs gs log log' (complete hs, log'') h k = Holds-trans fs gs hs log log' log'' h k
  Collected-after fs gs log log' (short hs, log'') h k = Holds-trans fs gs hs log log' log'' h k
  Collected-after fs gs log log' (stopped, log'') h k = tt

  pub get_frames-Collected :
      (bits start n i : ℕ) (fs : List Frame) (log : List Call)
      → Collected fs log (get_frames host bits start n i fs log)
  unfolding get_frames
  get_frames-Collected bits start zero i fs log = record {
    slots_held = λ x. omega arith;
    cookies_held = λ x. omega arith;
  }
  get_frames-Collected bits start (suc n) i fs log =
      let paddr = (start + u32 (i * 2 ^ bits)) % host.word in
      let l1 : List Call = cspace_alloc ∷ log in
      elim (Option-cases (host.slot l1)) [
        | inl e ↦ rw (get_frames, e) tt
        | inr (s, e) ↦
            let l2 : List Call = utspace_alloc_at s bits paddr ∷ l1 in
            let l3 : List Call = get_frame_cap s bits paddr ∷ l2 in
            elim (Option-cases (cookie_of (host.untyped l2))) [
              | inr (c, f) ↦
                  let frame : Frame = record { slot = s; cookie = c } in
                  let gs : List Frame = fs ++ (frame ∷ []) in
                  rw (get_frames, e, f)
                    (Collected-after fs gs log l2 (get_frames host bits start n (i + 1) gs l2)
                      (record {
                        slots_held = λ x. ground (arith, e, slot_count-snoc x fs frame);
                        cookies_held = λ x. ground (
                          arith,
                          gives-cookie_of x (host.untyped l2) (some c) f,
                          cookie_count-snoc x fs frame,
                        );
                      })
                      (get_frames-Collected bits start n (i + 1) gs l2))
              | inl f ↦ elim (Bool-cases (host.has_frame l3)) [
                | inl b ↦
                    let frame : Frame = record { slot = s; cookie = none } in
                    let gs : List Frame = fs ++ (frame ∷ []) in
                    rw (get_frames, e, f, b)
                      (Collected-after fs gs log l3 (get_frames host bits start n (i + 1) gs l3)
                        (record {
                          slots_held = λ x. ground (arith, e, slot_count-snoc x fs frame);
                          cookies_held = λ x. ground (
                            arith,
                            gives-cookie_of x (host.untyped l2) none f,
                            cookie_count-snoc x fs frame,
                          );
                        })
                        (get_frames-Collected bits start n (i + 1) gs l3))
                | inr b ↦
                    rw (get_frames, e, f, b)
                      (record {
                        slots_held = λ x. ground (arith, e);
                        cookies_held =
                            λ x. ground (arith, gives-cookie_of x (host.untyped l2) none f);
                      })
              ]
            ]
      ]
