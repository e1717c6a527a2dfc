-- ===== src/Send/Expiry.antt =====
-- `check_timeouts` keeps the sender's invariant in each of its branches.
use libutp.Base.{
  ℕ, suc, ◌+◌, ◌^◌, ◌≡◌, ◌&&◌, not, refl, sym, inl, inr, none, arith, true, false, Bool,
}
use libutp.Base.{u32, sub16, sub64, leb, ltb, ◌==◌, Bool-cases, Option-cases}
use mathlib.Core.Path.{subst}
use libutp.SequenceBuffer.{get}
use libutp.Mtu.{handle_probe_timeout}
use libutp.Ledbat.{on_rto_timeout, is_rto_expired}
use libutp.Ledbat.Timers.{set_retransmit_timeout, set_rto_timeout, increment_retransmit_count}
use libutp.Connection.{destroy, is_state, syn_recv, connected_full, timeout_active}
use libutp.Send.{Socket, Host, is_full, send_data}
use libutp.Send.Feedback.{send_keep_alive, send_ack}
use libutp.Send.Timeouts.{
  lose_window, resend_first, back_off, on_rto, reopen_window, unblock, keep_alive, check_timer,
  flush_unless_destroyed, check_timeouts, gives_up, past_connect, keepalive_interval,
}
use libutp.Send.Invariant.{IsSender, IsWindow, weaken, send_packet-IsSender}
use libutp.Send.Flushing.{is_full-Keeps, flush_packets-Keeps}
use libutp.Send.Acking.{lose_from-Keeps}

back_off-cur_window :
    (h : Host) (s : Socket) (ignore_loss : Bool)
    → (back_off h s ignore_loss).cc.cur_window ≡ s.cc.cur_window
unfolding back_off on_rto_timeout set_rto_timeout set_retransmit_timeout
back_off-cur_window h s true = refl
back_off-cur_window h s false = ground arith

module _ {k : ℕ} (m : ℕ) (h : Host) (s : Socket) where
  lose_window-IsSender : IsSender k m s → IsSender k m (lose_window s)
  unfolding lose_window
  lose_window-IsSender v = (lose_from-Keeps s.cur_window_packets 0 s v).0

  resend_first-IsSender : IsSender k (suc m) s → IsSender k m (resend_first h s).0
  unfolding resend_first increment_retransmit_count
  resend_first-IsSender v = elim (Bool-cases (ltb 0 s.cur_window_packets)) [
    | inr empty ↦ rw empty (weaken v m (omega arith))
    | inl some_out ↦
        rw some_out (elim (Option-cases (get s.outbuf (sub64 s.seq_nr s.cur_window_packets))) [
          | inl e ↦ rw (e, resend_first) (weaken v m (omega arith))
          | inr (pkt, e) ↦
              rw (e, resend_first)
                (send_packet-IsSender h marked (sub64 s.seq_nr s.cur_window_packets) pkt v e)
        ])
  ]
    where
      marked : Socket
      marked = record s {
        cc = increment_retransmit_count s.cc;
        fast_timeout = true;
        timeout_seq_nr = s.seq_nr;
      }

  back_off-IsSender :
      (ignore_loss : Bool) → IsSender k m s → IsSender k m (back_off h s ignore_loss)
  unfolding back_off
  back_off-IsSender true v =
      subst (IsWindow k m s.outbuf s.seq_nr s.cur_window_packets)
        (sym (back_off-cur_window h s true)) v
  back_off-IsSender false v =
      subst (IsWindow k m s.outbuf s.seq_nr s.cur_window_packets)
        (sym (back_off-cur_window h s false)) v

  reopen_window-IsSender : IsSender k m s → IsSender k m (reopen_window h s)
  unfolding reopen_window
  reopen_window-IsSender v =
      elim (Bool-cases
        (ltb (u32 (sub64 h.current_ms s.cc.zerowindow_time)) (2 ^ 31) && s.max_window_user == 0)) [
          | inl shut ↦ rw shut v
          | inr open_window ↦ rw open_window v
        ]

  pub unblock-IsSender : IsSender k m s → IsSender k m (unblock h s).0
  unfolding unblock
  unblock-IsSender v = elim (Bool-cases (is_state s.conn.state connected_full)) [
    | inr other ↦ rw other v
    | inl blocked ↦ rw blocked (elim (Bool-cases (is_full h s none).1) [
      | inl full ↦ rw full (is_full-Keeps m h s none v).0
      | inr roomy ↦ rw roomy (is_full-Keeps m h s none v).0
    ])
  ]

  keep_alive-IsSender : IsSender k m s → IsSender k m (keep_alive h s).0
  unfolding keep_alive send_keep_alive send_ack send_data
  keep_alive-IsSender v =
      elim (Bool-cases (
        past_connect s.conn.state
        && not s.conn.fin_sent
        && leb keepalive_interval (u32 (sub64 h.current_ms s.last_sent_packet)))) [
          | inl idle ↦ rw idle v
          | inr busy ↦ rw busy v
        ]

  flush_unless_destroyed-IsSender :
      IsSender k (s.cur_window_packets + m) s → IsSender k m (flush_unless_destroyed h s).0
  unfolding flush_unless_destroyed
  flush_unless_destroyed-IsSender v = elim (Bool-cases (is_state s.conn.state destroy)) [
    | inl dead ↦ rw dead (weaken v m (omega arith))
    | inr live ↦ rw live (flush_packets-Keeps m h s v).0
  ]

module _ {k : ℕ} (m : ℕ) (h : Host) (s : Socket) where
  -- The branch of an expired timer sends one packet.
  on_rto-IsSender : IsSender k (suc m) s → IsSender k m (on_rto h s).0
  unfolding on_rto
  on_rto-IsSender v =
      let (mtu, ignore_loss) =
        handle_probe_timeout s.mtu (sub16 s.seq_nr 1) s.cur_window_packets h.current_ms in
      let s1 : Socket = record s { mtu = mtu } in
      let backed = back_off-IsSender (suc m) h s1 ignore_loss v in
      let lost = lose_window-IsSender (suc m) h (back_off h s1 ignore_loss) backed in
      let resent = resend_first-IsSender m h (lose_window (back_off h s1 ignore_loss)) lost in
      elim (Bool-cases (is_state s.conn.state syn_recv)) [
        | inl half_open ↦ rw half_open (weaken v m (omega arith))
        | inr other ↦ rw other (elim (Bool-cases (gives_up s1)) [
          | inl fails ↦ rw fails (weaken v m (omega arith))
          | inr tries ↦ rw tries resent
        ])
      ]

  check_timer-IsSender : IsSender k (suc m) s → IsSender k m (check_timer h s).0
  unfolding check_timer
  check_timer-IsSender v = elim (Bool-cases (is_rto_expired s.cc h.current_ms)) [
    | inl expired ↦ rw expired (on_rto-IsSender v)
    | inr runs ↦ rw runs (weaken v m (omega arith))
  ]

-- `check_timeouts` keeps the invariant: each packet of the window is sent at most once by the flush,
-- and the first once more.
pub check_timeouts-IsSender :
    {k : ℕ} (m : ℕ) (h : Host) (s : Socket)
    → IsSender k (s.cur_window_packets + suc m) s
    → IsSender k m (check_timeouts h s).0
unfolding check_timeouts
check_timeouts-IsSender m h s v =
    let s1 = (flush_unless_destroyed h s).0 in
    let flushed = flush_unless_destroyed-IsSender (suc m) h s v in
    let opened = reopen_window-IsSender (suc m) h s1 flushed in
    let timer = check_timer-IsSender m h (reopen_window h s1) opened in
    let s2 = check_timer h (reopen_window h s1) in
    let unblocked = unblock-IsSender m h s2.0 timer in
    let kept = keep_alive-IsSender m h (unblock h s2.0).0 unblocked in
    elim (Bool-cases (not (timeout_active s1.conn.state))) [
      | inl passive ↦ rw passive (weaken flushed m (omega arith))
      | inr active ↦
          rw active
            (elim (Bool-cases s2.1) [ inl returns ↦ rw returns timer | inr goes ↦ rw goes kept ])
    ]
