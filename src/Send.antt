-- ===== src/Send.antt =====
-- src/utp_socket.cpp: the sending half of a socket. The packets that are out, or wait to be sent, are
-- the `cur_window_packets` ones before `seq_nr`; the sequence buffer owns them. What an operation
-- does outside of the socket is a list of outputs. Clocks and callbacks are read once for an
-- operation. Packet sizes stay below 2 ^ 31, where the casts to `int` are exact.
pub mod Acks
pub mod Write
pub mod Feedback
pub mod Timeouts
pub mod Advance
pub mod Flight
pub mod Invariant
pub mod Flushing
pub mod Acking
pub mod Advancing
pub mod Growing
pub mod Pushing
pub mod Writing
pub mod Session
pub mod Expiry
pub mod Trace
pub mod Eack
mod Tests
use libutp.Base.{
  ℕ, zero, suc, ◌+◌, ◌%◌, ◌^◌, ◌-◌, Bool, true, false, not, ◌&&◌, ◌||◌, min, List, [], ◌∷◌, ◌++◌,
}
use libutp.Base.{
  Option, none, some, u16, u32, u64, sub16, sub64, take, ltb, leb, ◌==◌, if◌then◌else◌,
}
use libutp.Base.Int.{ℤ}
use libutp.Wire.{PacketFormatV1, header_size, bytes_of}
use libutp.SequenceBuffer.{SequenceBuffer, get, put}
use libutp.Ledbat.{Ledbat, add_in_flight, mark_window_full}
use libutp.Mtu.{MtuDiscovery, should_rediscover, reset, wants_probe, set_probe, effective_mtu}
use libutp.Connection.{Connection, is_state, syn_sent, Event}
use libutp.Receive.{ReceiveState}

abbrev pub outgoing_buffer_max_size : ℕ
outgoing_buffer_max_size = 1024

-- `data` is the header, and the body of `payload` bytes.
pub record OutgoingPacket : Type 0 where
  pub length : ℕ
  pub payload : ℕ
  pub time_sent : ℕ
  pub transmissions : ℕ
  pub need_resend : Bool
  pub header : PacketFormatV1
  pub body : List ℕ

-- `SendState`, `ReceiveState`, `TimingState` and the two controllers.
pub record Socket : Type 0 where
  pub conn : Connection
  pub seq_nr : ℕ
  pub cur_window_packets : ℕ
  pub opt_sndbuf : ℕ
  pub opt_rcvbuf : ℕ
  pub max_window_user : ℕ
  pub flush_scan_start : ℕ
  pub outbuf : SequenceBuffer OutgoingPacket
  pub recv : ReceiveState
  pub last_rcv_win : ℕ
  pub reply_micro : ℕ
  pub last_sent_packet : ℕ
  pub fast_timeout : Bool
  pub timeout_seq_nr : ℕ
  pub fast_resend_seq_nr : ℕ
  pub duplicate_ack : ℕ
  pub cc : Ledbat
  pub mtu : MtuDiscovery
  pub extensions : List ℕ
  pub target_delay : ℕ
  pub last_got_packet : ℕ
  pub last_measured_delay : ℕ

-- What an operation is told by the host: its cached clock, the two clocks' callbacks, the sizes that
-- the callbacks for the path, the overhead and the read buffer return, and the connection's number.
pub record Host : Type 0 where
  pub current_ms : ℕ
  pub milliseconds : ℕ
  pub microseconds : ℕ
  pub udp_mtu : ℕ
  pub udp_overhead : ℕ
  pub read_buffer_size : ℕ
  pub conn_id_send : ℕ

-- `enum BandwidthType`
pub data Bandwidth : Type 0 where
  payload_bandwidth connect_overhead close_overhead ack_overhead header_overhead : Bandwidth
  retransmit_overhead : Bandwidth

-- The statistics' callback, a datagram with its flag against fragmentation, the two calls on the list
-- of deferred acknowledgements (`schedule_ack` of the host is `schedule`), what the connection reports,
-- and the callbacks for a payload, for the end of the stream and for a delay.
pub data Output : Type 0 where
  on_overhead : ℕ → Bandwidth → Output
  send_to : List ℕ → Bool → Output
  leave_ack_list schedule : Output
  report : Event → Output
  payload_read : List ℕ → Output
  stream_ended : Output
  delay_sample : ℤ → Output

unfoldable pub get_packet_size : Socket → ℕ
get_packet_size s = effective_mtu s.mtu header_size

unfoldable pub get_rcv_window : Host → Socket → ℕ
get_rcv_window h s =
    if ltb h.read_buffer_size s.opt_rcvbuf then s.opt_rcvbuf - h.read_buffer_size else 0

-- `send_data`: the header's two fields, the callback for the statistics, and the datagram.
unfoldable pub stamp : Host → Socket → PacketFormatV1 → PacketFormatV1
stamp h s header = record header { tv_usec = u32 h.microseconds; reply_micro = s.reply_micro }

unfoldable pub overhead_of : Host → ℕ → Bandwidth → Output
overhead_of h length payload_bandwidth = on_overhead (h.udp_overhead + header_size) header_overhead
overhead_of h length type = on_overhead (length + h.udp_overhead) type

unfoldable pub send_data : Host → Socket → List ℕ → ℕ → Bandwidth → Bool → Socket × List Output
unfolding overhead_of
send_data h s bytes length type dont_fragment = (
  record s { last_sent_packet = h.current_ms },
  overhead_of h length type ∷ send_to (take length bytes) dont_fragment ∷ leave_ack_list ∷ [],
)

-- The packet that `send_packet` leaves in its slot.
unfoldable pub sent_packet : Host → Socket → OutgoingPacket → OutgoingPacket
unfolding stamp
sent_packet h s pkt = record pkt {
  need_resend = false;
  time_sent = h.microseconds;
  transmissions = (pkt.transmissions + 1) % 2 ^ 31;
  header = stamp h s (record pkt.header { ack_nr = s.recv.ack_nr });
}

unfoldable pub bandwidth_of : Socket → OutgoingPacket → Bandwidth
unfolding is_state
bandwidth_of s pkt =
    if is_state s.conn.state syn_sent
    then connect_overhead
    else if (pkt.transmissions + 1) % 2 ^ 31 == 1
    then payload_bandwidth
    else retransmit_overhead

-- The search for the path's MTU, restarted when its time has come, and whether the packet is a probe.
unfoldable pub rediscovered : Host → MtuDiscovery → MtuDiscovery
rediscovered h m =
    if should_rediscover m h.milliseconds then reset m h.udp_mtu h.milliseconds else m

unfoldable pub probing : Socket → MtuDiscovery → OutgoingPacket → MtuDiscovery × Bool
probing s m pkt =
    if wants_probe m s.seq_nr pkt.length pkt.transmissions
    then (set_probe m (sub16 s.seq_nr 1) (u32 pkt.length), true)
    else (m, false)

unfoldable pub flying : Ledbat → OutgoingPacket → Ledbat
flying c pkt = if pkt.transmissions == 0 || pkt.need_resend then add_in_flight c pkt.payload else c

-- The packet at `seq`, which the buffer keeps.
unfoldable pub send_packet : Host → Socket → ℕ → OutgoingPacket → Socket × List Output
unfolding sent_packet bandwidth_of rediscovered probing flying send_data
send_packet h s seq pkt =
    let (mtu, probe) = probing s (rediscovered h s.mtu) pkt in
    let sent = sent_packet h s pkt in
    send_data h
      (record s { cc = flying s.cc pkt; mtu = mtu; outbuf = put s.outbuf seq (some sent) })
      (bytes_of sent.header ++ sent.body) sent.length (bandwidth_of s pkt) probe

-- `none` for the argument -1.
unfoldable pub wanted : Socket → Option ℕ → ℕ
unfolding get_packet_size
wanted s bytes = elim bytes [ none ↦ get_packet_size s | some b ↦ min b (get_packet_size s) ]

unfoldable pub window_full : Socket → Option ℕ → Bool
unfolding wanted
window_full s bytes =
    leb (outgoing_buffer_max_size - 1) s.cur_window_packets
    || ltb (min (min s.cc.max_window s.opt_sndbuf) s.max_window_user)
        (u64 (s.cc.cur_window + wanted s bytes))

unfoldable pub is_full : Host → Socket → Option ℕ → Socket × Bool
unfolding window_full
is_full h s bytes =
    if window_full s bytes
    then (record s { cc = mark_window_full s.cc h.current_ms }, true)
    else (s, false)

-- One round of the loop of `flush_packets`: whether it returns, and whether it is still in the
-- prefix that later calls can pass over.
pub record Flush : Type 0 where
  pub socket : Socket
  pub stop : Bool
  pub in_prefix : Bool
  pub outputs : List Output

unfoldable pub idle : Option OutgoingPacket → Bool
idle none = true
idle (some pkt) = ltb 0 pkt.transmissions && not pkt.need_resend

unfoldable pub passed : Socket → ℕ → Bool → Socket
passed s i in_prefix = if in_prefix then record s { flush_scan_start = u16 (i + 1) } else s

-- A packet that is to be sent. The last one waits for more bytes, unless it is the only one or full.
unfoldable pub flush_pending : Host → ℕ → ℕ → Bool → Socket → OutgoingPacket → Flush
unfolding is_full passed send_packet
flush_pending h packet_size i in_prefix s pkt =
    let (s1, full) = is_full h s none in
    let (s2, outputs) = send_packet h s1 i pkt in
    if full
    then record { socket = s1; stop = true; in_prefix = in_prefix; outputs = [] }
    else if not (i == sub16 s1.seq_nr 1)
        || (s1.cur_window_packets == 1 || leb packet_size pkt.payload)
    then record {
      socket = passed s2 i in_prefix;
      stop = false;
      in_prefix = in_prefix;
      outputs = outputs;
    }
    else record { socket = s1; stop = false; in_prefix = false; outputs = [] }

unfoldable pub flush_one : Host → ℕ → ℕ → Bool → Socket → Flush
unfolding idle passed flush_pending
flush_one h packet_size i in_prefix s =
    let skip : Flush = record {
      socket = passed s i in_prefix;
      stop = false;
      in_prefix = in_prefix;
      outputs = [];
    } in
    elim (get s.outbuf i) [
      | none ↦ skip
      | some pkt ↦ if idle (some pkt) then skip else flush_pending h packet_size i in_prefix s pkt
    ]

-- The loop with `rounds` left at `i`: `seq_nr` does not change, so the distance to it is the number
-- of rounds.
unfoldable pub flush_from : Host → ℕ → ℕ → ℕ → Bool → Socket → Socket × Bool × List Output
unfolding flush_one
flush_from h packet_size zero i in_prefix s = (s, false, [])
flush_from h packet_size (suc rounds) i in_prefix s =
    let r = flush_one h packet_size i in_prefix s in
    let (s', full, more) = flush_from h packet_size rounds (u16 (i + 1)) r.in_prefix r.socket in
    if r.stop then (r.socket, true, r.outputs) else (s', full, r.outputs ++ more)

unfoldable pub window_start : Socket → ℕ
window_start s = sub16 s.seq_nr s.cur_window_packets

-- A cursor outside of the window falls back to the window's start.
unfoldable pub scan_begin : Socket → ℕ
unfolding window_start
scan_begin s =
    if ltb s.cur_window_packets (sub16 s.flush_scan_start (window_start s))
    then window_start s
    else s.flush_scan_start

unfoldable pub flush_packets : Host → Socket → Socket × Bool × List Output
unfolding get_packet_size scan_begin flush_from
flush_packets h s =
    flush_from h (get_packet_size s) (sub16 s.seq_nr (scan_begin s)) (scan_begin s) true s

-- The sum of the loop of `check_invariant`: `n` packets before `seq_nr`.
unfoldable pub in_flight : Option OutgoingPacket → ℕ
in_flight none = 0
in_flight (some pkt) = if pkt.transmissions == 0 || pkt.need_resend then 0 else pkt.payload

unfoldable pub outstanding : SequenceBuffer OutgoingPacket → ℕ → ℕ → ℕ
unfolding in_flight
outstanding b seq_nr zero = 0
outstanding b seq_nr (suc n) = outstanding b seq_nr n + in_flight (get b (sub64 seq_nr (suc n)))

-- What its second assertion states.
unfoldable pub check_invariant : Socket → Bool
unfolding outstanding
check_invariant s = u64 (outstanding s.outbuf s.seq_nr s.cur_window_packets) == s.cc.cur_window
