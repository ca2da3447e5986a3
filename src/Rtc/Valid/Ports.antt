-- ===== src/Rtc/Valid/Ports.antt =====
-- The invariant of the clock through the writes of the guest.
use camkes_vm.Common.{
  ℕ, ◌<◌, ◌≤◌, ◌≡◌, Bool-cases, inl, inr, leb, false, arith, has, clear_flag, if◌then◌else◌,
}
use camkes_vm.Host.{tick, now}
use camkes_vm.Rtc.State.{
  TmTypes, RtcState, poke, rtc_reg_a, rtc_reg_b, rtc_reg_c, reg_b_set, reg_b_uie,
}
use camkes_vm.Rtc.Date.{rtc_set_time, rtc_copy_date}
use camkes_vm.Rtc.Periodic.{call}
use camkes_vm.Rtc.Ports.{
  update_now, write_time, write_reg_a, change_set, store_reg_b, write_reg_b, write_register,
  cmos_ioport_write,
}
use camkes_vm.Rtc.Valid.{IsRtc, rtc_timer_update-IsRtc}

-- A write of any register but C.
pub poke-IsRtc :
    (i v : ℕ) (s : RtcState) → (i ≡ rtc_reg_c → has v 0x80 ≡ false) → IsRtc s → IsRtc (poke i v s)
poke-IsRtc i v s other w = record {
  index_in = w.index_in;
  none_waits = w.none_waits;
  line_up = λ e. ground (arith, w.line_up, other, e);
}

update_now-IsRtc : (s : RtcState) → IsRtc s → IsRtc (update_now s)
update_now-IsRtc s v =
    rtc_timer_update-IsRtc (call s (tick s.world)) (now s.world)
      (record { index_in = v.index_in; none_waits = v.none_waits; line_up = v.line_up })

write_reg_a-IsRtc : (val : ℕ) (s : RtcState) → IsRtc s → IsRtc (write_reg_a val s)
unfolding write_reg_a
write_reg_a-IsRtc val s v =
    update_now-IsRtc _ (poke-IsRtc rtc_reg_a _ s (λ e. absurd (omega (arith, e))) v)

module _ (fit : TmTypes) where
  rtc_set_time-IsRtc : (s : RtcState) → IsRtc s → IsRtc (rtc_set_time fit s)
  unfolding rtc_set_time
  rtc_set_time-IsRtc s v = record {
    index_in = v.index_in;
    none_waits = v.none_waits;
    line_up = v.line_up;
  }

  pub rtc_copy_date-IsRtc : (s : RtcState) → IsRtc s → IsRtc (rtc_copy_date fit s)
  unfolding rtc_copy_date
  rtc_copy_date-IsRtc s v = record {
    index_in = v.index_in;
    none_waits = v.none_waits;
    line_up = v.line_up;
  }

  change_set-IsRtc : (val : ℕ) (s : RtcState) → IsRtc s → IsRtc (change_set fit val s)
  unfolding change_set
  change_set-IsRtc val s v =
      let t = rtc_set_time-IsRtc s v in
      record {
        index_in = ground (arith, v.index_in, t.index_in);
        none_waits = ground (arith, v.none_waits, t.none_waits);
        line_up = λ e. ground (arith, v.line_up, t.line_up, e);
      }

  store_reg_b-IsRtc : (val : ℕ) (s : RtcState) → IsRtc s → IsRtc (store_reg_b fit val s)
  unfolding store_reg_b
  store_reg_b-IsRtc val s v =
      let t = poke-IsRtc rtc_reg_b val s (λ e. absurd (omega (arith, e))) v in
      let u = rtc_copy_date-IsRtc (poke rtc_reg_b val s) t in
      record {
        index_in = ground (arith, t.index_in, u.index_in);
        none_waits = ground (arith, t.none_waits, u.none_waits);
        line_up = λ e. ground (arith, t.line_up, u.line_up, e);
      }

  write_reg_b-IsRtc : (val : ℕ) (s : RtcState) → IsRtc s → IsRtc (write_reg_b fit val s)
  unfolding write_reg_b
  write_reg_b-IsRtc val s v = update_now-IsRtc _ (
      store_reg_b-IsRtc (if has val reg_b_set then clear_flag val reg_b_uie else val) _
        (change_set-IsRtc val s v))

  write_time-IsRtc : (i val : ℕ) (s : RtcState) → i < 10 → IsRtc s → IsRtc (write_time fit i val s)
  unfolding write_time
  write_time-IsRtc i val s h v =
      let t = poke-IsRtc i val s (λ e. absurd (omega (arith, h, e))) v in
      let u = rtc_set_time-IsRtc (poke i val s) t in
      record {
        index_in = ground (arith, t.index_in, u.index_in);
        none_waits = ground (arith, t.none_waits, u.none_waits);
        line_up = λ e. ground (arith, t.line_up, u.line_up, e);
      }

  -- The registers after those of the time.
  write_control-IsRtc :
      (val : ℕ) (s : RtcState) → 10 ≤ s.cmos_index → IsRtc s → IsRtc (write_register fit val s)
  unfolding write_register
  write_control-IsRtc val s h v =
      let a = write_reg_a-IsRtc val s v in
      let b = write_reg_b-IsRtc val s v in
      record {
        index_in = ground (arith, v.index_in, a.index_in, b.index_in);
        none_waits = ground (arith, v.none_waits, a.none_waits, b.none_waits);
        line_up = λ e. ground (arith, v.line_up, a.line_up, b.line_up, e);
      }

  write_register-IsRtc : (val : ℕ) (s : RtcState) → IsRtc s → IsRtc (write_register fit val s)
  unfolding write_register
  write_register-IsRtc val s v = elim (Bool-cases (leb 10 s.cmos_index)) [
    | inl e ↦ write_control-IsRtc val s (ground (arith, e)) v
    | inr e ↦
        (let t = write_time-IsRtc s.cmos_index val s (ground (arith, e)) v in
          let p = poke-IsRtc s.cmos_index val s (λ c. absurd (ground (arith, e, c))) v in
          record {
            index_in = ground (arith, e, t.index_in, p.index_in);
            none_waits = ground (arith, e, t.none_waits, p.none_waits);
            line_up = λ f. ground (arith, e, t.line_up, p.line_up, f);
          })
  ]

  -- A write of any value to any port of the clock keeps the invariant.
  pub cmos_ioport_write-IsRtc :
      (addr val : ℕ) (s : RtcState) → IsRtc s → IsRtc (cmos_ioport_write fit addr val s)
  unfolding cmos_ioport_write
  cmos_ioport_write-IsRtc addr val s v =
      let w = write_register-IsRtc val s v in
      record {
        index_in = ground (arith, v.index_in, w.index_in);
        none_waits = ground (arith, v.none_waits, w.none_waits);
        line_up = λ e. ground (arith, v.line_up, w.line_up, e);
      }
