-- ===== src/Send/Timeouts.antt =====
-- src/utp_socket.cpp, `check_timeouts`: the retransmission timer, the window that the peer has shut, and
-- the packet that keeps the connection alive.
use libutp.Base.{
  ℕ, zero, suc, ◌+◌, ◌*◌, ◌^◌, Bool, true, false, not, ◌&&◌, ◌||◌, List, [], ◌∷◌, ◌++◌,
}
use libutp.Base.{none, some, u32, u64, sub16, sub64, leb, ltb, ◌==◌, if◌then◌else◌}
use libutp.SequenceBuffer.{get, put}
use libutp.Ledbat.{remove_in_flight, is_rto_expired, on_rto_timeout}
use libutp.Ledbat.Timers.{set_retransmit_timeout, set_rto_timeout, increment_retransmit_count}
use libutp.Mtu.{handle_probe_timeout}
use libutp.Connection.{
  ConnState, destroy, connected, connected_full, reset, syn_recv, syn_sent, is_state,
  timeout_active, failed, on_error, timed_out, on_writable,
}
use libutp.Send.{
  Socket, Host, OutgoingPacket, Output, report, send_packet, is_full, flush_packets,
  get_packet_size, window_start,
}
use libutp.Send.Feedback.{send_keep_alive}

abbrev pub packet_size : ℕ
packet_size = 1435

abbrev pub keepalive_interval : ℕ
keepalive_interval = 29000

-- A packet in flight is lost: it is to be sent again, and its bytes are not out any more.
unfoldable pub lose_packet : Socket → ℕ → OutgoingPacket → Socket
lose_packet s seq pkt = record s {
  outbuf = put s.outbuf seq (some (record pkt { need_resend = true }));
  cc = remove_in_flight s.cc pkt.payload;
}

unfoldable pub lose_at : Socket → ℕ → Socket
unfolding lose_packet
lose_at s seq = elim (get s.outbuf seq) [
  | none ↦ s
  | some pkt ↦ if pkt.transmissions == 0 || pkt.need_resend then s else lose_packet s seq pkt
]

-- The loop over the window at `i`, backwards from the last packet.
unfoldable pub lose_from : ℕ → ℕ → Socket → Socket
unfolding lose_at
lose_from zero i s = s
lose_from (suc rounds) i s = lose_from rounds (i + 1) (lose_at s (sub64 (sub64 s.seq_nr i) 1))

unfoldable pub lose_window : Socket → Socket
unfolding lose_from window_start
lose_window s = record (lose_from s.cur_window_packets 0 s) { flush_scan_start = window_start s }

-- The first packet of the window is sent again at once.
unfoldable pub resend_first : Host → Socket → Socket × List Output
unfolding send_packet
resend_first h s =
    let s1 = record s {
      cc = increment_retransmit_count s.cc;
      fast_timeout = true;
      timeout_seq_nr = s.seq_nr;
    } in
    let first = sub64 s.seq_nr s.cur_window_packets in
    if ltb 0 s.cur_window_packets
    then elim (get s1.outbuf first) [ none ↦ (s1, []) | some pkt ↦ send_packet h s1 first pkt ]
    else (s, [])

-- Too many retransmissions, or none allowed: the connection fails.
unfoldable pub gives_up : Socket → Bool
unfolding is_state
gives_up s =
    leb 4 s.cc.retransmit_count || (is_state s.conn.state syn_sent && leb 2 s.cc.retransmit_count)

-- The controller after a loss, and after a lost probe, which says nothing on the path's load.
unfoldable pub back_off : Host → Socket → Bool → Socket
back_off h s ignore_loss =
    let timeout = s.cc.retransmit_timeout in
    let new_timeout = if ignore_loss then timeout else u32 (timeout * 2) in
    let cc =
      set_rto_timeout (set_retransmit_timeout s.cc new_timeout)
        (u64 (h.current_ms + new_timeout)) in
    if ignore_loss then record s { cc = cc } else record s {
      duplicate_ack = 0;
      cc = on_rto_timeout cc (get_packet_size s) s.cur_window_packets;
    }

-- The branch of an expired timer, and whether `check_timeouts` returns in it.
unfoldable pub on_rto : Host → Socket → Socket × Bool × List Output
unfolding gives_up back_off lose_window resend_first is_state
on_rto h s =
    let (mtu, ignore_loss) =
      handle_probe_timeout s.mtu (sub16 s.seq_nr 1) s.cur_window_packets h.current_ms in
    let s1 = record s { mtu = mtu } in
    let (s2, outputs) = resend_first h (lose_window (back_off h s1 ignore_loss)) in
    if is_state s.conn.state syn_recv
    then (
      record s1 { conn = record s.conn { state = destroy } },
      true,
      report (on_error timed_out) ∷ [],
    )
    else if gives_up s1
    then (record s1 { conn = failed s.conn }, true, report (on_error timed_out) ∷ [])
    else (s2, false, outputs)

unfoldable pub reopen_window : Host → Socket → Socket
reopen_window h s =
    if ltb (u32 (sub64 h.current_ms s.cc.zerowindow_time)) (2 ^ 31) && s.max_window_user == 0
    then record s { max_window_user = packet_size }
    else s

-- A window that is no longer full: the test marks the window if it is.
unfoldable pub unblock : Host → Socket → Socket × List Output
unfolding is_state is_full
unblock h s =
    let (s', full) = is_full h s none in
    if is_state s.conn.state connected_full
    then (if full
        then (s', [])
        else (record s' { conn = record s'.conn { state = connected } }, report on_writable ∷ []))
    else (s, [])

-- `state >= CS_CONNECTED`
unfoldable pub past_connect : ConnState → Bool
past_connect connected = true
past_connect connected_full = true
past_connect reset = true
past_connect destroy = true
past_connect _ = false

-- The difference of the times is compared as an unsigned number.
unfoldable pub keep_alive : Host → Socket → Socket × List Output
unfolding past_connect send_keep_alive
keep_alive h s =
    if past_connect s.conn.state
      && not s.conn.fin_sent
      && leb keepalive_interval (u32 (sub64 h.current_ms s.last_sent_packet))
    then send_keep_alive h s
    else (s, [])

unfoldable pub flush_unless_destroyed : Host → Socket → Socket × List Output
unfolding flush_packets is_state
flush_unless_destroyed h s =
    let (s', _, outputs) = flush_packets h s in
    if is_state s.conn.state destroy then (s, []) else (s', outputs)

unfoldable pub check_timer : Host → Socket → Socket × Bool × List Output
unfolding on_rto
check_timer h s = if is_rto_expired s.cc h.current_ms then on_rto h s else (s, false, [])

unfoldable pub check_timeouts : Host → Socket → Socket × List Output
unfolding flush_unless_destroyed reopen_window check_timer unblock keep_alive
check_timeouts h s =
    let (s1, flushed) = flush_unless_destroyed h s in
    let (s2, returns, resent) = check_timer h (reopen_window h s1) in
    let (s3, writable) = unblock h s2 in
    let (s4, kept) = keep_alive h s3 in
    if not (timeout_active s1.conn.state)
    then (s1, flushed)
    else if returns
    then (s2, flushed ++ resent)
    else (s4, flushed ++ (resent ++ (writable ++ kept)))
