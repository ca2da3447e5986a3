-- ===== src/Events/Timed.antt =====
-- What the timers and the characters of an event do to the devices, whose invariants they keep.
use camkes_vm.Common.{
  ℕ, ◌/◌, ◌%◌, ◌^◌, ◌≡◌, refl, sym, ap, ◌∙◌, Bool, true, false, Bool-cases, ◌&&◌, Option, some, inl,
  inr, has, ltb, ◌==◌, if◌then◌else◌, if_holds, arith,
}
use camkes_vm.Host.{timer_pit}
use camkes_vm.Serial.State.{SerialState}
use camkes_vm.Serial.Receive.{GetcharBuf}
use camkes_vm.Serial.Entry.{serial_timer_interrupt, serial_character_interrupt}
use camkes_vm.Serial.Valid.{IsValid}
use camkes_vm.Serial.Valid.Entry.{
  EndsValid, serial_timer_interrupt-EndsValid, receive_pending-EndsValid,
}
use camkes_vm.Serial.Receive.Buffer.{IsPage}
use camkes_vm.Pit.State.{Arith}
use camkes_vm.Pit.Timer.{pit_timer_interrupt}
use camkes_vm.Pit.Valid.{IsPit, pit_timer_interrupt-IsPit}
use camkes_vm.Rtc.State.{TmTypes}
use camkes_vm.Rtc.Entry.{rtc_timer_interrupt}
use camkes_vm.Rtc.Valid.{IsRtc}
use camkes_vm.Rtc.Valid.Entry.{rtc_timer_interrupt-IsRtc}
use camkes_vm.Events.{
  Machine, Badges, rtc_expired, serial_expired, with_serial, run_timers, run_getchar,
}

-- The invariants of the devices.
pub record IsMachine (m : Machine) : Type 0 where
  pub pit_valid : IsPit m.pit
  pub rtc_valid : IsRtc m.rtc
  pub serial_valid : IsValid m.serial
  pub page_valid : IsPage m.page

-- the UART with its page
abbrev pub Uart : Type 0
Uart = SerialState × GetcharBuf

-- The machine `t` is `m` but for the UART and its page, which `o` gives.
pub record Put (o : Option Uart) (m t : Machine) : Type 0 where
  pub pit_same : t.pit ≡ m.pit
  pub rtc_same : t.rtc ≡ m.rtc
  pub calls_same : t.calls ≡ m.calls
  pub serial_put : ◌≡◌ {A = Option Uart} o (some (t.serial, t.page))

with_serial-Put :
    (m : Machine) (o : Option Uart)
    → IsMachine m
    → EndsValid o
    → (t : Machine) × (with_serial m o ≡ some t) × IsMachine t × Put o m t
with_serial-Put m o v (s, b, e, valid, page) = (
  record m { serial = s; page = b },
  ap (with_serial m) e,
  record {
    pit_valid = v.pit_valid;
    rtc_valid = v.rtc_valid;
    serial_valid = valid;
    page_valid = page;
  },
  record { pit_same = refl; rtc_same = refl; calls_same = refl; serial_put = e },
)

-- the bits of the timers of each device
pit_bit : (completed : ℕ) → has completed (2 ^ timer_pit) ≡ (completed % 2 == 1)
pit_bit completed = ground arith

rtc_bits : (completed : ℕ) → rtc_expired completed ≡ ltb 0 (completed / 2 % 16)
rtc_bits completed = ground arith

serial_bits : (completed : ℕ) → serial_expired completed ≡ ltb 0 (completed / 32 % 16)
serial_bits completed = ground arith

module _ (lib : Arith) (fit : TmTypes) (badges : Badges) where
  -- What the timers of a set do, if the event is one of timers: timer 0 runs the interval timer,
  -- timers 1 to 4 the clock, and timers 5 to 8 the UART.
  pub record Timed (is_timer : Bool) (completed : ℕ) (m t : Machine) : Type 0 where
    pub pit_run :
        t.pit ≡ (if is_timer && completed % 2 == 1 then pit_timer_interrupt lib m.pit else m.pit)
    pub rtc_run : t.rtc ≡ (
        if is_timer && ltb 0 (completed / 2 % 16)
        then rtc_timer_interrupt fit completed m.rtc
        else m.rtc)
    pub serial_run :
        ◌≡◌ {A = Option Uart}
          (if is_timer && ltb 0 (completed / 32 % 16)
            then serial_timer_interrupt completed m.serial m.page
            else some (m.serial, m.page))
          (some (t.serial, t.page))
    pub calls_same : t.calls ≡ m.calls

  pub untimed-Timed : (completed : ℕ) (m : Machine) → Timed false completed m m
  untimed-Timed completed m = record {
    pit_run = refl;
    rtc_run = refl;
    serial_run = refl;
    calls_same = refl;
  }

  abbrev pub RunsTimed : Bool → ℕ → Machine → Option Machine → Type 0
  RunsTimed b completed m o = (t : Machine) × (o ≡ some t) × IsMachine t × Timed b completed m t

  run_timers-RunsTimed :
      (completed : ℕ) (m : Machine)
      → IsMachine m
      → RunsTimed true completed m (run_timers lib fit badges completed m)
  unfolding run_timers
  run_timers-RunsTimed completed m v =
      let t : Machine = record m {
        pit = if has completed (2 ^ timer_pit) then pit_timer_interrupt lib m.pit else m.pit;
        rtc = if rtc_expired completed then rtc_timer_interrupt fit completed m.rtc else m.rtc;
      } in
      let w : IsMachine t = record {
        pit_valid =
            if_holds IsPit (has completed (2 ^ timer_pit)) (pit_timer_interrupt lib m.pit) m.pit
              (pit_timer_interrupt-IsPit lib m.pit v.pit_valid) v.pit_valid;
        rtc_valid =
            if_holds IsRtc (rtc_expired completed) (rtc_timer_interrupt fit completed m.rtc) m.rtc
              (rtc_timer_interrupt-IsRtc fit completed m.rtc v.rtc_valid) v.rtc_valid;
        serial_valid = v.serial_valid;
        page_valid = v.page_valid;
      } in
      let pit_ran : t.pit ≡ (if completed % 2 == 1 then pit_timer_interrupt lib m.pit else m.pit) =
        ap (λ b. if b then pit_timer_interrupt lib m.pit else m.pit) (pit_bit completed) in
      let rtc_ran : t.rtc ≡ (
          if ltb 0 (completed / 2 % 16) then rtc_timer_interrupt fit completed m.rtc else m.rtc) =
        ap (λ b. if b then rtc_timer_interrupt fit completed m.rtc else m.rtc)
          (rtc_bits completed) in
      let ends =
        serial_timer_interrupt-EndsValid completed m.serial m.page v.serial_valid v.page_valid in
      let (u, e, x, put) =
        with_serial-Put t (serial_timer_interrupt completed m.serial m.page) w ends in
      elim (Bool-cases (serial_expired completed)) [
        | inl b ↦
            let c : ltb 0 (completed / 32 % 16) ≡ true = sym (serial_bits completed) ∙ b in
            (
              u,
              rw (run_timers, b, e) refl,
              x,
              record {
                pit_run = put.pit_same ∙ pit_ran;
                rtc_run = put.rtc_same ∙ rtc_ran;
                serial_run = rw c put.serial_put;
                calls_same = put.calls_same;
              },
            )
        | inr b ↦
            let c : ltb 0 (completed / 32 % 16) ≡ false = sym (serial_bits completed) ∙ b in
            (
              t,
              rw (run_timers, b) refl,
              w,
              record {
                pit_run = pit_ran;
                rtc_run = rtc_ran;
                serial_run = rw c refl;
                calls_same = refl;
              },
            )
      ]

  pub timers-RunsTimed :
      (b : Bool) (completed : ℕ) (m : Machine)
      → IsMachine m
      → RunsTimed b completed m (if b then run_timers lib fit badges completed m else some m)
  timers-RunsTimed true completed m v = run_timers-RunsTimed completed m v
  timers-RunsTimed false completed m v = (m, refl, v, untimed-Timed completed m)

  -- the characters, if the event is one of characters
  abbrev pub typed : Bool → Machine → Option Uart
  typed b m = if b then serial_character_interrupt m.serial m.page else some (m.serial, m.page)

  pub getchar-Put :
      (b : Bool) (m : Machine)
      → IsMachine m
      → (t : Machine) × ((if b then run_getchar lib fit badges m else some m) ≡ some t)
        × IsMachine t
        × Put (typed b m) m t
  unfolding run_getchar serial_character_interrupt
  getchar-Put true m v =
      with_serial-Put m (serial_character_interrupt m.serial m.page) v
        (receive_pending-EndsValid m.serial m.page v.serial_valid v.page_valid)
  getchar-Put false m v = (
    m,
    refl,
    v,
    record { pit_same = refl; rtc_same = refl; calls_same = refl; serial_put = refl },
  )
