-- ===== src/Events/Valid.antt =====
-- An event as a whole: the timers, the characters, and the calls for the badges that it covers.
use camkes_vm.Common.{
  ℕ, ◌+◌, ◌^◌, ◌≡◌, refl, sym, ap, ◌∙◌, Bool, true, false, Bool-cases, ◌&&◌, Option, some, inl, inr,
  List, [], ◌∷◌, ◌++◌, has, if◌then◌else◌,
}
use mathlib.Core.List.{append_assoc}
use camkes_vm.Serial.Entry.{serial_character_interrupt}
use camkes_vm.Pit.State.{Arith}
use camkes_vm.Rtc.State.{TmTypes}
use camkes_vm.Events.{
  Call, inject_irq, notify_device, Machine, Badges, covers, inject_from, notify_from, handle_badges,
  handle_async_event,
}
use camkes_vm.Events.Timed.{IsMachine, Uart, Timed, untimed-Timed, timers-RunsTimed, getchar-Put}

-- The calls for the badges of a list that a badge covers, the latest first, from place `i`.
abbrev pub covered_from : (ℕ → Call) → ℕ → ℕ → List ℕ → List Call
covered_from call badge i [] = []
covered_from call badge i (b ∷ bs) =
    covered_from call badge (i + 1) bs ++ (if covers badge b then call i ∷ [] else [])

cons_calls :
    (l : List Call) (b : Bool) (c : Call) (calls : List Call)
    → l ++ (if b then c ∷ calls else calls) ≡ (l ++ (if b then c ∷ [] else [])) ++ calls
cons_calls l true c calls = sym (append_assoc l (c ∷ []) calls)
cons_calls l false c calls = sym (append_assoc l [] calls)

inject_from-covered_from :
    (badge i : ℕ) (bs : List ℕ) (calls : List Call)
    → inject_from badge i bs calls ≡ covered_from inject_irq badge i bs ++ calls
unfolding inject_from
inject_from-covered_from badge i [] calls = refl
inject_from-covered_from badge i (b ∷ bs) calls =
    inject_from-covered_from badge (i + 1) bs
      (if covers badge b then inject_irq i ∷ calls else calls)
    ∙ cons_calls (covered_from inject_irq badge (i + 1) bs) (covers badge b) (inject_irq i) calls

notify_from-covered_from :
    (badge i : ℕ) (bs : List ℕ) (calls : List Call)
    → notify_from badge i bs calls ≡ covered_from notify_device badge i bs ++ calls
unfolding notify_from
notify_from-covered_from badge i [] calls = refl
notify_from-covered_from badge i (b ∷ bs) calls =
    notify_from-covered_from badge (i + 1) bs
      (if covers badge b then notify_device i ∷ calls else calls)
    ∙ cons_calls (covered_from notify_device badge (i + 1) bs) (covers badge b) (notify_device i)
        calls

module _ (lib : Arith) (fit : TmTypes) (badges : Badges) where
  -- What an event does: the timers, then the characters, and then the lines and the devices. An
  -- event without bit 27 does nothing.
  pub record Dispatched (badge completed : ℕ) (m u : Machine) : Type 0 where
    pub between : Machine
    pub timers :
        Timed lib fit badges
          (has badge (2 ^ 27) && covers badge badges.init_timer)
          completed
          m
          between
    pub characters :
        ◌≡◌ {A = Option Uart}
          (if has badge (2 ^ 27) && covers badge badges.getchar
            then serial_character_interrupt between.serial between.page
            else some (between.serial, between.page))
          (some (u.serial, u.page))
    pub pit_same : u.pit ≡ between.pit
    pub rtc_same : u.rtc ≡ between.rtc
    pub calls_made : u.calls ≡ (
        if has badge (2 ^ 27)
        then covered_from notify_device badge 0 badges.devices
          ++ (covered_from inject_irq badge 0 badges.irq_badges ++ m.calls)
        else m.calls)
    pub valid : IsMachine u

  handle_badges-calls :
      (badge : ℕ) (m : Machine)
      → (handle_badges lib fit badges badge m).calls
        ≡ covered_from notify_device badge 0 badges.devices
          ++ (covered_from inject_irq badge 0 badges.irq_badges ++ m.calls)
  unfolding handle_badges
  handle_badges-calls badge m =
      notify_from-covered_from badge 0 badges.devices
        (inject_from badge 0 badges.irq_badges m.calls)
      ∙ ap (λ l. covered_from notify_device badge 0 badges.devices ++ l)
          (inject_from-covered_from badge 0 badges.irq_badges m.calls)

  abbrev pub RunsValid : ℕ → ℕ → Machine → Option Machine → Type 0
  RunsValid badge completed m o = (u : Machine) × (o ≡ some u) × Dispatched badge completed m u

  -- For every badge and every set of timers that went off, the dispatch of an event returns. For a
  -- timer event, the interval timer runs exactly when timer 0 is in the set, the clock when one of
  -- the timers 1 to 4 is, and the UART when one of 5 to 8 is; then the UART takes characters,
  -- exactly for an event of characters; then exactly the lines and the devices whose badges are
  -- covered are called, in order. Without bit 27 nothing is done. The invariants of the interval
  -- timer, the clock, the UART and the page of characters are kept.
  pub handle_async_event-RunsValid :
      (badge completed : ℕ) (m : Machine)
      → IsMachine m
      → RunsValid badge completed m (handle_async_event lib fit badges badge completed m)
  unfolding handle_async_event handle_badges
  handle_async_event-RunsValid badge completed m v =
      let (t, e, w, timed) =
        timers-RunsTimed lib fit badges (covers badge badges.init_timer) completed m v in
      let (u, f, x, put) = getchar-Put lib fit badges (covers badge badges.getchar) t w in
      elim (Bool-cases (has badge (2 ^ 27))) [
        | inl b ↦ (
          handle_badges lib fit badges badge u,
          rw (handle_async_event, b, e, f) refl,
          record {
            between = t;
            timers = rw b timed;
            characters = rw b put.serial_put;
            pit_same = put.pit_same;
            rtc_same = put.rtc_same;
            calls_made = rw b (
                handle_badges-calls badge u
                ∙ ap
                    (λ l.
                      covered_from notify_device badge 0 badges.devices
                      ++ (covered_from inject_irq badge 0 badges.irq_badges ++ l))
                    (put.calls_same ∙ timed.calls_same));
            valid = record {
              pit_valid = x.pit_valid;
              rtc_valid = x.rtc_valid;
              serial_valid = x.serial_valid;
              page_valid = x.page_valid;
            };
          },
        )
        | inr b ↦ (
          m,
          rw (handle_async_event, b) refl,
          record {
            between = m;
            timers = rw b (untimed-Timed lib fit badges completed m);
            characters = rw b refl;
            pit_same = refl;
            rtc_same = refl;
            calls_made = rw b refl;
            valid = v;
          },
        )
      ]
