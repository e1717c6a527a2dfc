-- ===== src/Send/Feedback.antt =====
-- src/utp_socket.cpp: the packets without payload that tell the peer what has arrived: an acknowledgement,
-- with a bitmap of what waits for a missing packet, one that keeps the connection alive, and a reset.
use libutp.Base.{
  ℕ, zero, suc, ◌+◌, ◌/◌, ◌^◌, Bool, true, false, not, ◌&&◌, min, List, [], ◌∷◌, ◌++◌,
}
use libutp.Base.{Option, none, some, u8, u16, u32, sub16, ltb, ◌==◌, if◌then◌else◌}
use libutp.Wire.{PacketFormatV1, header_size, set_version, set_type, st_state, st_reset, bytes_of}
use libutp.SequenceBuffer.{SequenceBuffer, get, size}
use libutp.Send.{
  Socket, Host, Output, send_data, stamp, get_rcv_window, ack_overhead, leave_ack_list,
}
use libutp.Send.{schedule}
use libutp.Connection.{is_state, uninitialized}
use libutp.Send.Write.{zero_header}

unfoldable pub occupied : Option (List ℕ) → Bool
occupied none = false
occupied (some pkt) = true

-- The loop over the bits below `n`: bit `i` has not been set before, so that setting it adds.
unfoldable pub eack_bits : SequenceBuffer (List ℕ) → ℕ → ℕ → ℕ
unfolding occupied
eack_bits inbuf ack_nr zero = 0
eack_bits inbuf ack_nr (suc i) =
    eack_bits inbuf ack_nr i + (if occupied (get inbuf (ack_nr + i + 2)) then 2 ^ i else 0)

-- `acks`, the lowest byte first.
unfoldable pub eack_bytes : ℕ → List ℕ
eack_bytes m = u8 m ∷ u8 (m / 2 ^ 8) ∷ u8 (m / 2 ^ 16) ∷ u8 (m / 2 ^ 24) ∷ []

unfoldable pub eack_mask : Socket → List ℕ
unfolding eack_bits eack_bytes
eack_mask s = eack_bytes (eack_bits s.recv.inbuf s.recv.ack_nr (min (14 + 16) (size s.recv.inbuf)))

-- Whether packets wait for one that is missing.
unfoldable pub has_gap : Socket → Bool
has_gap s = not (s.recv.reorder_count == 0) && not s.recv.got_fin_reached

unfoldable pub ack_header : Host → Socket → PacketFormatV1
ack_header h s = record (set_type (set_version zero_header 1) st_state) {
  ext = if has_gap s then 1 else 0;
  connid = u16 h.conn_id_send;
  ack_nr = s.recv.ack_nr;
  seq_nr = s.seq_nr;
  windowsize = u32 (get_rcv_window h s);
}

-- The datagram of an acknowledgement: the header, and `ext_next`, `ext_len` and `acks` where there is
-- a gap.
unfoldable pub ack_bytes : Host → Socket → List ℕ
unfolding has_gap ack_header eack_mask
ack_bytes h s =
    bytes_of (stamp h s (ack_header h s)) ++ (if has_gap s then 0 ∷ 4 ∷ eack_mask s else [])

unfoldable pub send_ack : Host → Socket → Socket × List Output
unfolding has_gap ack_bytes send_data
send_ack h s =
    let len = header_size + (if has_gap s then 4 + 2 else 0) in
    let (s', outputs) =
      send_data h (record s { last_rcv_win = get_rcv_window h s }) (ack_bytes h s) len ack_overhead
        false in
    (s', outputs ++ leave_ack_list ∷ [])

-- The acknowledgement of the packet before.
unfoldable pub send_keep_alive : Host → Socket → Socket × List Output
unfolding send_ack
send_keep_alive h s =
    let earlier = record s.recv { ack_nr = sub16 s.recv.ack_nr 1 } in
    let (s', outputs) = send_ack h (record s { recv = earlier }) in
    (record s' { recv = record s'.recv { ack_nr = u16 (s'.recv.ack_nr + 1) } }, outputs)

-- The datagram of `send_rst`, which no socket takes part in.
unfoldable pub rst_bytes : ℕ → ℕ → ℕ → List ℕ
rst_bytes conn_id_send ack_nr seq_nr =
    bytes_of (record (set_type (set_version zero_header 1) st_reset) {
      connid = u16 conn_id_send;
      ack_nr = ack_nr;
      seq_nr = seq_nr;
    })

-- The application has read what was there: a window that was shut is announced at once.
unfoldable pub read_drained : Host → Socket → Socket × List Output
unfolding send_ack is_state
read_drained h s =
    if is_state s.conn.state uninitialized
    then (s, [])
    else if ltb s.last_rcv_win (get_rcv_window h s)
    then (if s.last_rcv_win == 0 then send_ack h s else (s, schedule ∷ []))
    else (s, [])
