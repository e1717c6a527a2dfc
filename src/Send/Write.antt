-- ===== src/Send/Write.antt =====
-- src/utp_socket.cpp: what the application writes, cut into packets. An `iovec` is the list of the
-- bytes that it still has; copying from it leaves the rest.
use libutp.Base.{
  ℕ, zero, suc, ◌+◌, ◌-◌, Bool, true, false, not, ◌&&◌, min, max, List, [], ◌∷◌, ◌++◌,
}
use libutp.Base.{
  Option, none, some, ◌>>=◌, u16, u32, sub64, take, drop, length, ltb, ◌==◌, if◌then◌else◌,
}
use libutp.Wire.{PacketFormatV1, header_size, set_version, set_type, st_data, st_fin}
use libutp.SequenceBuffer.{get, put, ensure_size}
use libutp.Ledbat.{set_initial_rto}
use libutp.Connection.{writable, connected_full}
use libutp.Send.{
  Socket, Host, OutgoingPacket, Output, get_packet_size, get_rcv_window, is_full, flush_packets,
}

abbrev pub iov_max : ℕ
iov_max = 1024

-- The copying loop: `needed` bytes, and what is left of the vectors.
unfoldable pub gather : ℕ → List (List ℕ) → List ℕ × List (List ℕ)
gather needed [] = ([], [])
gather needed (v ∷ vs) =
    let (more, rest) = gather (needed - length v) vs in
    (take needed v ++ more, drop needed v ∷ rest)

abbrev pub zero_header : PacketFormatV1
zero_header = record {
  ver_type = 0;
  ext = 0;
  connid = 0;
  tv_usec = 0;
  reply_micro = 0;
  windowsize = 0;
  seq_nr = 0;
  ack_nr = 0;
}

abbrev pub new_packet : OutgoingPacket
new_packet = record {
  length = 0;
  payload = 0;
  time_sent = 0;
  transmissions = 0;
  need_resend = false;
  header = zero_header;
  body = [];
}

-- The fields of the header that are written for every chunk.
unfoldable pub fill_header : Host → Socket → ℕ → PacketFormatV1 → PacketFormatV1
fill_header h s flags header = record (set_type (set_version header 1) flags) {
  ext = 0;
  connid = u16 h.conn_id_send;
  windowsize = u32 (get_rcv_window h s);
  ack_nr = s.recv.ack_nr;
}

-- A packet with a chunk of `added` bytes at its end.
unfoldable pub extended : Host → Socket → ℕ → OutgoingPacket → ℕ → List ℕ → OutgoingPacket
unfolding fill_header
extended h s flags pkt added chunk = record pkt {
  payload = pkt.payload + added;
  length = header_size + (pkt.payload + added);
  header = fill_header h s flags pkt.header;
  body = pkt.body ++ chunk;
}

-- The last packet of the window.
unfoldable pub last_packet : Socket → Option OutgoingPacket
last_packet s = if s.cur_window_packets == 0 then none else get s.outbuf (sub64 s.seq_nr 1)

-- Whether bytes are appended to it.
unfoldable pub has_room : ℕ → ℕ → OutgoingPacket → Bool
has_room packet_size payload pkt =
    not (payload == 0) && pkt.transmissions == 0 && ltb pkt.payload packet_size

-- A round: the socket, the number of bytes taken, and what is left of the vectors.
unfoldable pub append_round :
    Host → Socket → ℕ → ℕ → ℕ → List (List ℕ) → OutgoingPacket → Socket × ℕ × List (List ℕ)
unfolding extended
append_round h s packet_size payload flags iovec pkt =
    let added = min (payload + pkt.payload) (max packet_size pkt.payload) - pkt.payload in
    let (chunk, rest) = gather added iovec in
    (
      record s {
        last_rcv_win = get_rcv_window h s;
        outbuf = put s.outbuf (sub64 s.seq_nr 1) (some (extended h s flags pkt added chunk));
      },
      added,
      rest,
    )

-- The new packet's own number is written with the rest of its header.
unfoldable pub packet_of : Host → Socket → ℕ → ℕ → List ℕ → OutgoingPacket
unfolding extended
packet_of h s payload flags chunk =
    let pkt = extended h s flags new_packet payload chunk in
    record pkt { header = record pkt.header { seq_nr = s.seq_nr } }

unfoldable pub create_round :
    Host → Socket → ℕ → ℕ → List (List ℕ) → Option (Socket × ℕ × List (List ℕ))
unfolding packet_of
create_round h s payload flags iovec = do
  outbuf ← ensure_size s.outbuf s.seq_nr s.cur_window_packets
  let (chunk, rest) = gather payload iovec
  some (
    record s {
      last_rcv_win = get_rcv_window h s;
      outbuf = put outbuf s.seq_nr (some (packet_of h s payload flags chunk));
      seq_nr = u16 (s.seq_nr + 1);
      cur_window_packets = u16 (s.cur_window_packets + 1);
    },
    payload,
    rest,
  )

unfoldable pub write_round :
    Host → Socket → ℕ → ℕ → ℕ → List (List ℕ) → Option (Socket × ℕ × List (List ℕ))
unfolding last_packet has_room append_round create_round
write_round h s packet_size payload flags iovec = elim (last_packet s) [
  | none ↦ create_round h s payload flags iovec
  | some pkt ↦
      if has_room packet_size payload pkt
      then some (append_round h s packet_size payload flags iovec pkt)
      else create_round h s payload flags iovec
]

-- The do-while loop, with fuel for its rounds: a first one can fill the last packet, and then one
-- takes all that is left.
unfoldable pub write_rounds :
    ℕ → Host → Socket → ℕ → ℕ → ℕ → List (List ℕ) → Option (Socket × List (List ℕ))
unfolding write_round
write_rounds zero h s packet_size payload flags iovec = none
write_rounds (suc fuel) h s packet_size payload flags iovec = do
  (s1, added, rest) ← write_round h s packet_size payload flags iovec
  let next = write_rounds fuel h s1 packet_size (payload - added) flags rest
  if payload - added == 0 then some (s1, rest) else next

unfoldable pub write_outgoing_packet :
    Host → Socket → ℕ → ℕ → List (List ℕ) → Option (Socket × List (List ℕ) × List Output)
unfolding write_rounds
write_outgoing_packet h s payload flags iovec = do
  let s0 =
      if s.cur_window_packets == 0 then record s { cc = set_initial_rto s.cc h.current_ms } else s
  (s1, rest) ← write_rounds 2 h s0 (get_packet_size s0) payload flags iovec
  let (s2, _, outputs) = flush_packets h s1
  some (s2, rest, outputs)

unfoldable pub send_fin : Host → Socket → Option (Socket × List Output)
unfolding write_outgoing_packet
send_fin h s = do
  (s', _, outputs) ←
      write_outgoing_packet h (record s { conn = record s.conn { fin_sent = true } }) 0 st_fin []
  some (s', outputs)

-- The end of `writev` with a window that is full for the next packet, and perhaps for any.
unfoldable pub block : Host → Socket → Socket
block h s =
    let (s', full) = is_full h s none in
    if full then record s' { conn = record s'.conn { state = connected_full } } else s'

-- The loop of `writev`: `bytes` are left to send, `sent` have been sent.
unfoldable pub writev_from :
    ℕ → Host → Socket → ℕ → ℕ → ℕ → List (List ℕ) → Option (Socket × ℕ × List Output)
unfolding block
writev_from zero h s packet_size bytes sent iovec = none
writev_from (suc fuel) h s packet_size bytes sent iovec =
    let num_to_send = min bytes packet_size in
    let (s1, full) = is_full h s (some num_to_send) in
    let written = (do
      (s2, rest, outputs) ← write_outgoing_packet h s1 num_to_send st_data iovec
      let left = bytes - num_to_send
      let later = writev_from fuel h s2 packet_size left (sent + num_to_send) rest
      if min left packet_size == 0
          then some (s2, sent + num_to_send, outputs)
          else (do (s3, total, more) ← later; some (s3, total, outputs ++ more))) in
    if full then some (block h s1, sent, []) else written

unfoldable pub total_length : List (List ℕ) → ℕ
total_length [] = 0
total_length (v ∷ vs) = length v + total_length vs

-- Every round but the last takes a byte.
unfoldable pub writev : Host → Socket → List (List ℕ) → Option (Socket × ℕ × List Output)
unfolding writev_from
writev h s iovec_input =
    let iovec = take iov_max iovec_input in
    let bytes = total_length iovec in
    if not (writable s.conn.state)
    then some (s, 0, [])
    else if s.conn.fin_sent
    then some (s, 0, [])
    else writev_from (bytes + 1) h s (get_packet_size s) bytes 0 iovec
