-- ===== src/Send/Advance.antt =====
-- src/utp_process.cpp, `advance_send_window`, and of `process_incoming` and `process_acks` what they do to
-- the sending half: the packets that an acknowledgement takes out of the window.
use libutp.Base.{ℕ, zero, suc, ◌+◌, Bool, true, false, not, ◌&&◌, ◌||◌, List, [], ◌∷◌, ◌++◌}
use libutp.Base.{Option, none, some, u8, u16, u64, sub16, sub64, leb, ltb, ◌==◌, if◌then◌else◌}
use libutp.SequenceBuffer.{get}
use libutp.Wire.{st_state, st_syn}
use libutp.Ledbat.Timers.{set_zerowindow_time}
use libutp.DelayHistory.{wrapping_compare_less}
use libutp.Mtu.{MtuDiscovery, handle_probe_ack, handle_probe_loss, clear_probe}
use libutp.Connection.{Event, acked, is_state, syn_recv}
use libutp.Send.{Socket, Host, OutgoingPacket, Output, report, send_packet, window_start}
use libutp.Send.Acks.{ack_packet, take_sample, duplicate_acks_before_resend}

-- The first sequence number of the window, as the `int` that a slot is found by.
unfoldable pub first : Socket → ℕ
first s = sub64 s.seq_nr s.cur_window_packets

unfoldable pub shrink : Socket → Socket
shrink s = record s { cur_window_packets = sub16 s.cur_window_packets 1 }

-- The loop over the acknowledged packets: one that was not sent ends it.
unfoldable pub ack_from : Host → ℕ → Socket → Socket
unfolding ack_packet shrink first
ack_from h zero s = s
ack_from h (suc acks) s =
    let (s1, status) = ack_packet h s (first s) in
    let rest = ack_from h acks (shrink s1) in if status == 2 then s1 else rest

unfoldable pub is_none : Option OutgoingPacket → Bool
is_none none = true
is_none (some pkt) = false

-- The loop that passes over the packets that were acknowledged selectively: a packet fewer is left
-- after each round.
unfoldable pub trim_from : ℕ → Socket → Socket
unfolding is_none shrink first
trim_from zero s = s
trim_from (suc rounds) s =
    let rest = trim_from rounds (shrink s) in
    if ltb 0 s.cur_window_packets && is_none (get s.outbuf (first s)) then rest else s

unfoldable pub trim : Socket → Socket
unfolding trim_from
trim s = trim_from s.cur_window_packets s

-- The only packet that is left does not wait for more bytes.
unfoldable pub send_single : Host → Socket → Socket × List Output
unfolding send_packet
send_single h s =
    let single = sub64 s.seq_nr 1 in
    if s.cur_window_packets == 1
    then elim (get s.outbuf single) [
      | none ↦ (s, [])
      | some pkt ↦ if pkt.transmissions == 0 then send_packet h s single pkt else (s, [])
    ]
    else (s, [])

-- After a timeout every acknowledgement sends the next packet again, until one is ahead.
unfoldable pub retry_fast : Host → Socket → Socket × List Output
unfolding send_packet first window_start
retry_fast h s =
    let retried = record s { fast_resend_seq_nr = u16 (s.fast_resend_seq_nr + 1) } in
    if not s.fast_timeout
    then (s, [])
    else if not (window_start s == s.fast_resend_seq_nr)
    then (record s { fast_timeout = false }, [])
    else elim (get s.outbuf (first s)) [
      | none ↦ (s, [])
      | some pkt ↦ if ltb 0 pkt.transmissions then send_packet h retried (first s) pkt else (s, [])
    ]

unfoldable pub reports : List Event → List Output
reports [] = []
reports (e ∷ es) = report e ∷ reports es

-- What the header alone decides: the peer's window, the state of the connection, and the number from
-- which a packet may be sent again.
unfoldable pub take_header : Host → Socket → ℕ → ℕ → ℕ → ℕ → Socket × List Output
unfolding acked reports
take_header h s type ack_nr windowsize acks =
    let (conn, events) = acked s.conn type (s.cur_window_packets == acks) in
    let next = u16 (ack_nr + 1) in
    (
      record s {
        max_window_user = windowsize;
        cc =
            if windowsize == 0 then set_zerowindow_time s.cc (u64 (h.current_ms + 15000)) else s.cc;
        conn = conn;
        fast_resend_seq_nr =
            if wrapping_compare_less s.fast_resend_seq_nr next 0xffff
            then next
            else s.fast_resend_seq_nr;
      },
      reports events,
    )

unfoldable pub advance_send_window : Host → Socket → ℕ → ℕ → ℕ → ℕ → Socket × List Output
unfolding take_header ack_from trim send_single retry_fast
advance_send_window h s type ack_nr windowsize acks =
    let (s1, events) = take_header h s type ack_nr windowsize acks in
    let (s2, single) = send_single h (trim (ack_from h acks s1)) in
    let (s3, retried) = retry_fast h s2 in
    if leb acks s.cur_window_packets then (s3, events ++ (single ++ retried)) else (s, [])

-- `process_incoming`: how many packets an acknowledgement takes. One that is too far acknowledges
-- nothing.
unfoldable pub ack_count : Socket → ℕ → ℕ
ack_count s ack_nr =
    let acks = sub16 ack_nr (sub16 (sub16 s.seq_nr 1) s.cur_window_packets) in
    if ltb s.cur_window_packets acks then 0 else acks

-- `process_incoming`: a number that was not sent yet, or that is long acknowledged.
unfoldable pub is_invalid_ack : Socket → ℕ → ℕ → Bool
unfolding is_state
is_invalid_ack s type ack_nr =
    let newest = sub16 s.seq_nr 1 in
    let allowed =
      let window = u16 (s.cur_window_packets + duplicate_acks_before_resend) in
      if ltb window duplicate_acks_before_resend then duplicate_acks_before_resend else window in
    not (type == st_syn && is_state s.conn.state syn_recv)
    && (wrapping_compare_less newest ack_nr 0xffff
        || wrapping_compare_less ack_nr (sub16 newest allowed) 0xffff)

-- `process_incoming`: the third duplicate decides on a probe that is out.
unfoldable pub third_duplicate : Host → MtuDiscovery → ℕ → MtuDiscovery
third_duplicate h m ack_nr =
    if m.probe_seq == 0
    then m
    else if ack_nr == sub16 m.probe_seq 1
    then handle_probe_loss m h.current_ms
    else clear_probe m

unfoldable pub count_duplicate : Host → Socket → ℕ → ℕ → Socket
unfolding third_duplicate window_start
count_duplicate h s type ack_nr =
    let count = u8 (s.duplicate_ack + 1) in
    if s.cur_window_packets == 0
    then s
    else if ack_nr == sub16 (window_start s) 1 && type == st_state
    then record s {
      duplicate_ack = count;
      mtu = if count == duplicate_acks_before_resend then third_duplicate h s.mtu ack_nr else s.mtu;
    }
    else record s { duplicate_ack = 0 }

-- `process_acks`, the loop at `i`: the bytes acknowledged and the least round trip; a probe that
-- arrived moves the search.
unfoldable pub sample_at : Host → Socket × ℕ × ℕ → ℕ → Socket × ℕ × ℕ
unfolding take_sample window_start
sample_at h (s, acked_bytes, min_rtt) i =
    let seq = u16 (window_start s + i) in
    elim (get s.outbuf seq) [
      | none ↦ (s, acked_bytes, min_rtt)
      | some pkt ↦
          let (acked_bytes', min_rtt') = take_sample h (acked_bytes, min_rtt) pkt in
          if pkt.transmissions == 0 then (s, acked_bytes, min_rtt) else (
            record s { mtu = (handle_probe_ack s.mtu seq h.current_ms).0 },
            acked_bytes',
            min_rtt',
          )
    ]

unfoldable pub sample_from : Host → ℕ → ℕ → Socket × ℕ × ℕ → Socket × ℕ × ℕ
unfolding sample_at
sample_from h zero i acc = acc
sample_from h (suc rounds) i acc = sample_from h rounds (i + 1) (sample_at h acc i)
