-- ===== src/Serial/Xmit.antt =====
-- `serial_xmit` of serial.c.
use camkes_vm.Common.{
  u64, ℕ, ◌+◌, Bool, true, false, [], ◌∷◌, leb, ◌==◌, if◌then◌else◌, has, set_flag, pos, negsuc,
  inc, is_neg, le_nat,
}
use camkes_vm.Host.{emit, tick, now, oneshot_absolute, putchar, timer_transmit_timer}
use camkes_vm.Serial.State.{SerialState, max_xmit_retry, fcr_fe, lsr_thre, lsr_temt, mcr_loop}
use camkes_vm.Serial.Fifo.{xmit, fifo_get}
use camkes_vm.Serial.Irq.{serial_update_irq}
use camkes_vm.Serial.Receive.{serial_receive1}

-- The first part: unless a byte waits to be tried again, the next one goes to the shift register.
unfoldable pub load_tsr : SerialState → SerialState
load_tsr s =
    if le_nat s.tsr_retry 0
    then if has s.fcr fcr_fe
      then (let (c, t) = fifo_get xmit s in
          record t {
            tsr = c;
            lsr = if t.xmit_fifo.count == 0 then set_flag t.lsr lsr_thre else t.lsr;
          })
      else record s { tsr = s.thr; lsr = set_flag s.lsr lsr_thre }
    else s

abbrev pub arm_transmit : ℕ → SerialState → SerialState
arm_transmit ts s = record s {
  world = emit (oneshot_absolute timer_transmit_timer (u64 (ts + s.char_transmit_time))) s.world;
}

-- The second part: where the byte goes. The flag says that the function returns at once.
unfoldable pub send_tsr : ℕ → SerialState → Bool × SerialState
send_tsr new_xmit_ts s =
    if has s.mcr mcr_loop
    then (false, serial_receive1 (s.tsr ∷ []) s)
    else if leb 16 s.chars_sent
    then if le_nat s.tsr_retry max_xmit_retry
      then (true, arm_transmit new_xmit_ts (record s { tsr_retry = inc s.tsr_retry }))
      else (false, if is_neg s.poll_msl then record s { tsr_retry = negsuc 0 } else s)
    else (
      false,
      record s {
        world = emit (putchar s.tsr) s.world;
        chars_sent = s.chars_sent + 1;
        tsr_retry = pos 0;
      },
    )

-- The last part: the time stamp, then the timer for the next byte or the interrupt.
unfoldable pub finish_xmit : SerialState → SerialState
finish_xmit s =
    let ts = now s.world in
    let t = record s { last_xmit_ts = ts; world = tick s.world } in
    if has t.lsr lsr_thre
    then serial_update_irq (record t { lsr = set_flag t.lsr lsr_temt; thr_ipending = 1 })
    else arm_transmit ts t

unfoldable pub serial_xmit : SerialState → SerialState
serial_xmit s =
    let (done, t) = send_tsr (now s.world) (load_tsr (record s { world = tick s.world })) in
    if done then t else finish_xmit t
