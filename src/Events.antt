-- ===== src/Events.antt =====
-- The dispatch of events to the devices: `handle_async_event` of components/Init/src/main.c,
-- without CONFIG_VMM_USE_HPET. Each device keeps the log of its own calls; their lines and timers
-- differ.
pub mod Timed
pub mod Valid
mod Tests
use camkes_vm.Common.{
  ℕ, zero, suc, ◌+◌, ◌^◌, Bool, true, false, ◌||◌, Option, none, some, List, [], ◌∷◌, bit_and, has,
  if◌then◌else◌, ◌==◌,
}
use camkes_vm.Host.{
  timer_pit, timer_periodic_timer, timer_coalesced_timer, timer_second_timer, timer_second_timer2,
  timer_fifo_timeout, timer_transmit_timer, timer_modem_status_timer, timer_more_chars,
}
use camkes_vm.Serial.State.{SerialState}
use camkes_vm.Serial.Receive.{GetcharBuf}
use camkes_vm.Serial.Entry.{serial_timer_interrupt, serial_character_interrupt}
use camkes_vm.Pit.State.{Arith, PitState}
use camkes_vm.Pit.Timer.{pit_timer_interrupt}
use camkes_vm.Rtc.State.{TmTypes, RtcState}
use camkes_vm.Rtc.Entry.{rtc_timer_interrupt}

-- `vm_inject_irq` of a line, or the call of a function of the list of devices.
pub data Call : Type 0 where
  inject_irq : ℕ → Call
  notify_device : ℕ → Call

-- `calls` holds the calls of the handler itself, the latest first.
pub record Machine : Type 0 where
  pub pit : PitState
  pub rtc : RtcState
  pub serial : SerialState
  pub page : GetcharBuf
  pub calls : List Call

-- The badges, which the build generates or another library defines, and those of the devices.
pub record Badges : Type 0 where
  pub init_timer : ℕ
  pub getchar : ℕ
  pub irq_badges : List ℕ
  pub devices : List ℕ

abbrev pub covers : ℕ → ℕ → Bool
covers badge b = bit_and badge b == b

-- the two loops over badges, from place `i`
unfoldable pub inject_from : ℕ → ℕ → List ℕ → List Call → List Call
inject_from badge i [] calls = calls
inject_from badge i (b ∷ bs) calls =
    inject_from badge (i + 1) bs (if covers badge b then inject_irq i ∷ calls else calls)

unfoldable pub notify_from : ℕ → ℕ → List ℕ → List Call → List Call
notify_from badge i [] calls = calls
notify_from badge i (b ∷ bs) calls =
    notify_from badge (i + 1) bs (if covers badge b then notify_device i ∷ calls else calls)

abbrev pub rtc_expired : ℕ → Bool
rtc_expired completed =
    has completed (2 ^ timer_periodic_timer)
    || has completed (2 ^ timer_coalesced_timer)
    || has completed (2 ^ timer_second_timer)
    || has completed (2 ^ timer_second_timer2)

abbrev pub serial_expired : ℕ → Bool
serial_expired completed =
    has completed (2 ^ timer_fifo_timeout)
    || has completed (2 ^ timer_transmit_timer)
    || has completed (2 ^ timer_modem_status_timer)
    || has completed (2 ^ timer_more_chars)

-- The UART and its page put back; `none` is a failed assertion or a loop that does not end.
abbrev pub with_serial : Machine → Option (SerialState × GetcharBuf) → Option Machine
with_serial m none = none
with_serial m (some (s, b)) = some (record m { serial = s; page = b })

module _ (lib : Arith) (fit : TmTypes) (badges : Badges) where
  -- The timers that went off are `completed`, what `init_timer_completed` returns.
  unfoldable pub run_timers : ℕ → Machine → Option Machine
  run_timers completed m =
      let t = record m {
        pit = if has completed (2 ^ timer_pit) then pit_timer_interrupt lib m.pit else m.pit;
        rtc = if rtc_expired completed then rtc_timer_interrupt fit completed m.rtc else m.rtc;
      } in
      if serial_expired completed
      then with_serial t (serial_timer_interrupt completed t.serial t.page)
      else some t

  unfoldable pub run_getchar : Machine → Option Machine
  run_getchar m = with_serial m (serial_character_interrupt m.serial m.page)

  unfoldable pub handle_badges : ℕ → Machine → Machine
  handle_badges badge m = record m {
    calls = notify_from badge 0 badges.devices (inject_from badge 0 badges.irq_badges m.calls);
  }

  unfoldable pub handle_async_event : ℕ → ℕ → Machine → Option Machine
  handle_async_event badge completed m =
      if has badge (2 ^ 27)
      then elim (if covers badge badges.init_timer then run_timers completed m else some m) [
        | none ↦ none
        | some t ↦ elim (if covers badge badges.getchar then run_getchar t else some t) [
          | none ↦ none
          | some u ↦ some (handle_badges badge u)
        ]
      ]
      else some m
