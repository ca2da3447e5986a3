-- ===== src/VmArm/Events/Registered.antt =====
-- Notifications go to the handlers that were registered.
use camkes_vm.Common.{
  length-snoc, ℕ, zero, suc, ◌+◌, ◌≡◌, ◌≢◌, refl, sym, ap, ap₂, ◌∙◌, true, false, Option, none,
  some, List, [], ◌∷◌, ◌++◌, length, get_or, ltb, set, arith, if◌then◌else◌, ◌==◌,
}
use mathlib.Core.List.{append-nil, append_assoc}
use camkes_vm.VmArm.Events.{
  AsyncEventHandler, Callbacks, Registration, registered, no_memory, overrun, no_array,
  no_callbacks, zeroed, grown, write_handler, register_async_event_handler, covers, notify, found,
  handle_async_event,
}

-- what is done with the state that a registration leaves
abbrev pub after : {A : Type 0} → (Callbacks → A) → Registration → Option A
after f (registered s) = some (f s)
after f (no_memory s) = some (f s)
after f overrun = none

-- registrations in a row, while there is memory
abbrev pub register_next : List AsyncEventHandler → Registration → Registration
register_next [] r = r
register_next (h ∷ hs) (registered s) = register_next hs (register_async_event_handler true h s)
register_next (h ∷ hs) (no_memory s) = no_memory s
register_next (h ∷ hs) overrun = overrun

abbrev pub register_all : List AsyncEventHandler → Registration
register_all hs = register_next hs (registered no_callbacks)

-- the handlers of a list that a badge covers
abbrev pub covered : ℕ → List AsyncEventHandler → List AsyncEventHandler
covered badge [] = []
covered badge (h ∷ hs) = if covers badge h then h ∷ covered badge hs else covered badge hs

-- the state with some handlers
abbrev array_of : List AsyncEventHandler → Option (List AsyncEventHandler)
array_of [] = none
array_of (h ∷ hs) = some (h ∷ hs)

abbrev state_of : List AsyncEventHandler → Callbacks
state_of hs = record { callback_idx = length hs; callback_arr = array_of hs }

length-grown : (n : ℕ) (hs : List AsyncEventHandler) → length (grown n hs) ≡ n
length-grown zero hs = refl
length-grown (suc n) [] = ap suc (length-grown n [])
length-grown (suc n) (h ∷ hs) = ap suc (length-grown n hs)

set-grown :
    (hs : List AsyncEventHandler) (h : AsyncEventHandler)
    → set (grown (suc (length hs)) hs) (length hs) h ≡ hs ++ (h ∷ [])
set-grown [] h = refl
set-grown (g ∷ hs) h = ap (λ t. g ∷ t) (set-grown hs h)

state_of-snoc :
    (hs : List AsyncEventHandler) (h : AsyncEventHandler)
    → record { callback_idx = length hs + 1; callback_arr = some (hs ++ (h ∷ [])) }
      ≡ state_of (hs ++ (h ∷ []))
state_of-snoc [] h = refl
state_of-snoc (g ∷ hs) h =
    ap (λ n. record { callback_idx = n; callback_arr = some (g ∷ hs ++ (h ∷ [])) })
      (sym (length-snoc (g ∷ hs) h))

write_handler-grown :
    (hs : List AsyncEventHandler) (h : AsyncEventHandler)
    → write_handler h (length hs) (grown (suc (length hs)) hs)
      ≡ registered (state_of (hs ++ (h ∷ [])))
write_handler-grown hs h =
    let fits : ltb (length hs) (length (grown (suc (length hs)) hs)) ≡ true =
      ground (arith, length-grown (suc (length hs)) hs) in
    rw (fits, set-grown hs h) (ap registered (state_of-snoc hs h))

register-state_of :
    (hs : List AsyncEventHandler) (h : AsyncEventHandler)
    → register_async_event_handler true h (state_of hs) ≡ registered (state_of (hs ++ (h ∷ [])))
unfolding register_async_event_handler
register-state_of [] h = refl
register-state_of (g ∷ hs) h = write_handler-grown (g ∷ hs) h

register_next-state_of :
    (hs done : List AsyncEventHandler)
    → register_next hs (registered (state_of done)) ≡ registered (state_of (done ++ hs))
register_next-state_of [] done = ap (λ l. registered (state_of l)) (sym (append-nil done))
register_next-state_of (h ∷ hs) done =
    ap (register_next hs) (register-state_of done h)
    ∙ register_next-state_of hs (done ++ (h ∷ []))
    ∙ ap (λ l. registered (state_of l)) (append_assoc done (h ∷ []) hs)

get_or-middle :
    (done hs : List AsyncEventHandler) (h : AsyncEventHandler)
    → get_or (done ++ (h ∷ hs)) (length done) zeroed ≡ h
get_or-middle [] hs h = refl
get_or-middle (g ∷ done) hs h = get_or-middle done hs h

notify-covered :
    (badge : ℕ) (hs done arr : List AsyncEventHandler) (i : ℕ)
    → arr ≡ done ++ hs
    → i ≡ length done
    → notify badge arr (length hs) i ≡ covered badge hs
unfolding notify
notify-covered badge [] done arr i e f = refl
notify-covered badge (h ∷ hs) done arr i e f =
    let here : get_or arr i zeroed ≡ h =
      ap₂ (λ l k. get_or l k zeroed) e f ∙ get_or-middle done hs h in
    let later : notify badge arr (length hs) (i + 1) ≡ covered badge hs =
      notify-covered badge hs (done ++ (h ∷ [])) arr (i + 1)
        (e ∙ sym (append_assoc done (h ∷ []) hs)) (ap (λ n. n + 1) f ∙ sym (length-snoc done h)) in
    rw (notify, here, later) refl

other_badge : (badge : ℕ) → badge ≢ 0 → (badge == 0) ≡ false
other_badge badge h = ground (arith, h)

handle_async_event-state_of :
    (hs : List AsyncEventHandler) (badge label : ℕ)
    → badge ≢ 0
    → handle_async_event (state_of hs) badge label ≡ found (covered badge hs)
unfolding handle_async_event
handle_async_event-state_of [] badge label h = rw (other_badge badge h) refl
handle_async_event-state_of (g ∷ hs) badge label h =
    rw (other_badge badge h) (ap found (notify-covered badge (g ∷ hs) [] (g ∷ hs) 0 refl refl))

-- Once any number of handlers are registered, and each registration has memory, a notification with
-- a badge other than 0 calls exactly the handlers whose badge it covers, in the order in which they
-- were registered, and is logged as unknown when there is none.
pub handle_async_event-covered :
    (hs : List AsyncEventHandler) (badge label : ℕ)
    → badge ≢ 0
    → after (λ s. handle_async_event s badge label) (register_all hs)
      ≡ some (found (covered badge hs))
handle_async_event-covered hs badge label h =
    ap (after (λ s. handle_async_event s badge label)) (register_next-state_of hs [])
    ∙ ap some (handle_async_event-state_of hs badge label h)

-- Once a registration has found no memory for a further handler, a notification with a badge other
-- than 0 stops at an assertion, and the next registration that has memory writes past the end of
-- that memory.
pub register_async_event_handler-lost :
    (h : AsyncEventHandler) (hs : List AsyncEventHandler) (g k : AsyncEventHandler)
    (badge label : ℕ)
    → badge ≢ 0
    → (after
          (λ s.
            after (λ t. handle_async_event t badge label) (register_async_event_handler false g s))
          (register_all (h ∷ hs))
        ≡ some (some no_array))
      × (after
            (λ s.
              after (register_async_event_handler true k) (register_async_event_handler false g s))
            (register_all (h ∷ hs))
          ≡ some (some overrun))
unfolding register_async_event_handler handle_async_event
register_async_event_handler-lost h hs g k badge label n =
    let stands : register_all (h ∷ hs) ≡ registered (state_of (h ∷ hs)) =
      register_next-state_of (h ∷ hs) [] in
    let past : ltb (suc (length hs)) 1 ≡ false = ground arith in
    (
      ap
            (after (λ s.
              after (λ t. handle_async_event t badge label)
                (register_async_event_handler false g s)))
            stands
          ∙ rw (handle_async_event, other_badge badge n) refl,
      ap
            (after (λ s.
              after (register_async_event_handler true k) (register_async_event_handler false g s)))
            stands
          ∙ rw past refl,
    )
