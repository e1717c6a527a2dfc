-- ===== src/Incoming/Timers.antt =====
-- The timers of the sending half leave the receive buffer and the extension bits as they are.
use libutp.Base.{ℕ, zero, suc, ◌+◌, ◌^◌, ◌&&◌, ◌||◌, refl, inl, inr, Bool, true, false}
use libutp.Base.{u32, sub16, sub64, ltb, ◌==◌, Bool-cases, Option-cases}
use libutp.SequenceBuffer.{get}
use libutp.Connection.{is_state, syn_recv, destroy}
use libutp.Ledbat.{is_rto_expired}
use libutp.Mtu.{handle_probe_timeout}
use libutp.Send.{Socket, Host}
use libutp.Send.Timeouts.{
  lose_at, lose_from, lose_window, resend_first, gives_up, back_off, on_rto, reopen_window,
  flush_unless_destroyed, check_timer,
}
use libutp.Incoming.Untouched.{Untouched, and_then}
use libutp.Incoming.Steps.{flush_packets-Untouched}

lose_from-Untouched : (rounds i : ℕ) (s : Socket) → Untouched s (lose_from rounds i s)
unfolding lose_from lose_at
lose_from-Untouched zero i s = (refl, refl)
lose_from-Untouched (suc rounds) i s =
    let seq = sub64 (sub64 s.seq_nr i) 1 in
    and_then s (lose_at s seq) (lose_from rounds (i + 1) (lose_at s seq)) (one seq)
      (lose_from-Untouched rounds (i + 1) (lose_at s seq))
  where
    one : (seq : ℕ) → Untouched s (lose_at s seq)
    one seq = elim (Option-cases (get s.outbuf seq)) [
      | inl e ↦ rw (e, lose_at) (refl, refl)
      | inr (pkt, e) ↦
          rw (e, lose_at)
            (elim (Bool-cases (pkt.transmissions == 0 || pkt.need_resend)) [
              | inl unsent ↦ rw unsent (refl, refl)
              | inr out ↦ rw out (refl, refl)
            ])
    ]

resend_first-Untouched : (h : Host) (s : Socket) → Untouched s (resend_first h s).0
unfolding resend_first
resend_first-Untouched h s = elim (Bool-cases (ltb 0 s.cur_window_packets)) [
  | inr empty ↦ rw empty (refl, refl)
  | inl some_out ↦
      rw some_out (elim (Option-cases (get s.outbuf (sub64 s.seq_nr s.cur_window_packets))) [
        | inl e ↦ rw (e, resend_first) (refl, refl)
        | inr (pkt, e) ↦ rw (e, resend_first) (refl, refl)
      ])
]

back_off-Untouched :
    (h : Host) (s : Socket) (ignore_loss : Bool) → Untouched s (back_off h s ignore_loss)
unfolding back_off
back_off-Untouched h s true = (refl, refl)
back_off-Untouched h s false = (refl, refl)

on_rto-Untouched : (h : Host) (s : Socket) → Untouched s (on_rto h s).0
unfolding on_rto lose_window
on_rto-Untouched h s =
    let probe = handle_probe_timeout s.mtu (sub16 s.seq_nr 1) s.cur_window_packets h.current_ms in
    let s1 : Socket = record s { mtu = probe.0 } in
    let s2 = back_off h s1 probe.1 in
    let s3 = lose_window s2 in
    elim (Bool-cases (is_state s.conn.state syn_recv)) [
      | inl half_open ↦ rw half_open (refl, refl)
      | inr other ↦ rw other (elim (Bool-cases (gives_up s1)) [
        | inl fails ↦ rw fails (refl, refl)
        | inr tries ↦ rw tries (
            and_then s s2 (resend_first h s3).0 (back_off-Untouched h s1 probe.1) (
              and_then s2 s3 (resend_first h s3).0 (lose_from-Untouched s2.cur_window_packets 0 s2)
                (resend_first-Untouched h s3)))
      ])
    ]

pub reopen_window-Untouched : (h : Host) (s : Socket) → Untouched s (reopen_window h s)
unfolding reopen_window
reopen_window-Untouched h s =
    elim (Bool-cases
      (ltb (u32 (sub64 h.current_ms s.cc.zerowindow_time)) (2 ^ 31) && s.max_window_user == 0)) [
        | inl shut ↦ rw shut (refl, refl)
        | inr open_window ↦ rw open_window (refl, refl)
      ]

pub check_timer-Untouched : (h : Host) (s : Socket) → Untouched s (check_timer h s).0
unfolding check_timer
check_timer-Untouched h s = elim (Bool-cases (is_rto_expired s.cc h.current_ms)) [
  | inl expired ↦ rw expired (on_rto-Untouched h s)
  | inr runs ↦ rw runs (refl, refl)
]

pub flush_unless_destroyed-Untouched :
    (h : Host) (s : Socket) → Untouched s (flush_unless_destroyed h s).0
unfolding flush_unless_destroyed
flush_unless_destroyed-Untouched h s = elim (Bool-cases (is_state s.conn.state destroy)) [
  | inl dead ↦ rw dead (refl, refl)
  | inr live ↦ rw live (flush_packets-Untouched h s)
]
