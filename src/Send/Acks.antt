-- ===== src/Send/Acks.antt =====
-- src/utp_socket.cpp: the acknowledgement of a packet, and the selective ones. A bitmap is the list of
-- its bytes, of which a socket reads `len`; a bit outside of it is not set.
use libutp.Base.{
  ℕ, zero, suc, ◌+◌, ◌-◌, ◌*◌, ◌/◌, ◌%◌, ◌^◌, Bool, true, false, not, ◌&&◌, min, List, [], ◌∷◌,
  ◌++◌,
}
use libutp.Base.{
  none, some, u8, u16, u32, u64, sub16, sub32, sub64, get_or, take, length, ltb, leb, ◌==◌,
  if◌then◌else◌,
}
use libutp.SequenceBuffer.{get}
use libutp.SequenceBuffer
use libutp.Ledbat.{update_rtt, remove_in_flight, maybe_decay_win, Ledbat}
use libutp.Ledbat.Timers.{set_retransmit_timeout, set_rto_timeout, set_retransmit_count}
use libutp.Send.{Socket, Host, OutgoingPacket, Output, send_packet, outgoing_buffer_max_size}

abbrev pub duplicate_acks_before_resend : ℕ
duplicate_acks_before_resend = 3

abbrev pub max_eack : ℕ
max_eack = 128

-- The packet's time, if it was sent once; the timer is restarted in any case.
unfoldable pub acked_timer : Host → Ledbat → OutgoingPacket → Ledbat
acked_timer h c pkt =
    if pkt.transmissions == 1
    then update_rtt c (u32 (sub64 h.microseconds pkt.time_sent / 1000)) h.current_ms
    else set_rto_timeout (set_retransmit_timeout c c.rto) (u64 (h.current_ms + c.rto))

unfoldable pub landed : Ledbat → OutgoingPacket → Ledbat
landed c pkt = if pkt.need_resend then c else remove_in_flight c pkt.payload

unfoldable pub acked_packet : Host → Socket → ℕ → OutgoingPacket → Socket
unfolding acked_timer landed
acked_packet h s seq pkt = record s {
  outbuf = (SequenceBuffer.take s.outbuf seq).1;
  cc = set_retransmit_count (landed (acked_timer h s.cc pkt) pkt) 0;
}

-- 0: acknowledged; 1: there is no such packet; 2: it was not sent.
unfoldable pub ack_packet : Host → Socket → ℕ → Socket × ℕ
unfolding acked_packet
ack_packet h s seq = elim (get s.outbuf seq) [
  | none ↦ (s, 1)
  | some pkt ↦ if pkt.transmissions == 0 then (s, 2) else (acked_packet h s seq pkt, 0)
]

-- `mask[i >> 3] & (1 << (i & 7))`, for a bit of the bitmap.
unfoldable pub bit_set : List ℕ → ℕ → Bool
bit_set mask i = get_or mask (i / 8) 0 / 2 ^ (i % 8) % 2 == 1

-- Whether `v` is in the window, but not its first packet.
unfoldable pub after_first : Socket → ℕ → Bool
after_first s v = ltb (sub16 (sub16 s.seq_nr (u16 v)) 1) (sub16 s.cur_window_packets 1)

-- How long a packet has been out: 50 milliseconds if it seems to come from the future.
unfoldable pub age : Host → OutgoingPacket → ℕ
age h pkt = if ltb pkt.time_sent h.microseconds then sub64 h.microseconds pkt.time_sent else 50000

-- The bytes of a packet and the least round trip, with those of the packets before.
unfoldable pub take_sample : Host → ℕ × ℕ → OutgoingPacket → ℕ × ℕ
unfolding age
take_sample h (acked_bytes, min_rtt) pkt =
    (u64 (acked_bytes + pkt.payload), min min_rtt (age h pkt))

-- One round of `selective_ack_bytes`, at the bit `bits - 1`.
unfoldable pub sack_bytes_at : Host → Socket → ℕ → List ℕ → ℕ → ℕ → ℕ × ℕ → ℕ × ℕ
unfolding after_first bit_set take_sample
sack_bytes_at h s base mask len bits acc =
    let v = sub32 (base + bits) 1 in
    elim (get s.outbuf v) [
      | none ↦ acc
      | some pkt ↦
          if after_first s v
            && not (pkt.transmissions == 0)
            && ltb 0 bits
            && ltb (bits - 1) (len * 8)
            && bit_set mask (bits - 1)
          then take_sample h acc pkt
          else acc
    ]

-- The bits from `len * 8` down to -1: `rounds` are left, and the next bit is `rounds - 2`.
unfoldable pub sack_bytes_from : Host → Socket → ℕ → List ℕ → ℕ → ℕ → ℕ × ℕ → ℕ × ℕ
unfolding sack_bytes_at
sack_bytes_from h s base mask len zero acc = acc
sack_bytes_from h s base mask len (suc rounds) acc =
    sack_bytes_from h s base mask len rounds (sack_bytes_at h s base mask len rounds acc)

unfoldable pub selective_ack_bytes : Host → Socket → ℕ → List ℕ → ℕ → ℕ → ℕ × ℕ
unfolding sack_bytes_from
selective_ack_bytes h s base mask len min_rtt =
    if s.cur_window_packets == 0
    then (0, min_rtt)
    else sack_bytes_from h s base mask len (len * 8 + 2) (0, min_rtt)

-- The state of the loop of `selective_ack`: `resends` is the array up to `nr`, the last one first.
pub record Scan : Type 0 where
  pub socket : Socket
  pub count : ℕ
  pub resends : List ℕ

-- A full array loses the first half of its places.
unfoldable pub push_resend : List ℕ → ℕ → List ℕ
push_resend resends v =
    v
    ∷ (if leb (max_eack - 2) (length resends)
        then take (length resends - max_eack / 2) resends
        else resends)

-- Within the range that has not been resent yet, with enough packets received after it.
unfoldable pub is_lost : Socket → ℕ → ℕ → Bool
is_lost s v count =
    leb (sub16 (u16 v) s.fast_resend_seq_nr) outgoing_buffer_max_size
    && leb duplicate_acks_before_resend count

-- A round at a number in the window, with its bit.
unfoldable pub scan_packet : Host → Scan → ℕ → Bool → Scan
unfolding ack_packet is_lost push_resend
scan_packet h a v set =
    let counted = if set then a.count + 1 else a.count in
    let unchanged : Scan = record a { count = counted } in
    elim (get a.socket.outbuf v) [
      | none ↦ unchanged
      | some pkt ↦
          if pkt.transmissions == 0
          then unchanged
          else if set
          then record unchanged { socket = (ack_packet h a.socket v).0 }
          else if is_lost a.socket v counted
          then record unchanged { resends = push_resend a.resends v }
          else unchanged
    ]

unfoldable pub scan_at : Host → ℕ → List ℕ → ℕ → Scan → Scan
unfolding scan_packet after_first bit_set
scan_at h base mask bits a =
    let v = sub32 (base + bits) 1 in
    if after_first a.socket v then scan_packet h a v (ltb 0 bits && bit_set mask (bits - 1)) else a

-- The bits from `len * 8 - 1` down to -1.
unfoldable pub scan_from : Host → ℕ → List ℕ → ℕ → Scan → Scan
unfolding scan_at
scan_from h base mask zero a = a
scan_from h base mask (suc rounds) a = scan_from h base mask rounds (scan_at h base mask rounds a)

-- The loop over the resends: at most four packets are sent again, with the outputs and whether there
-- was one.
unfoldable pub resend_from : Host → ℕ → List ℕ → Socket → Socket × Bool × List Output
unfolding send_packet
resend_from h budget [] s = (s, false, [])
resend_from h zero (v ∷ vs) s = (s, false, [])
resend_from h (suc budget) (v ∷ vs) s = elim (get s.outbuf v) [
  | none ↦ resend_from h (suc budget) vs s
  | some pkt ↦
      let (s1, sent) = send_packet h s v pkt in
      let (s2, _, more) =
        resend_from h budget vs (record s1 { fast_resend_seq_nr = u16 (v + 1) }) in
      (s2, true, sent ++ more)
]

unfoldable pub finish_sack : Host → ℕ → Scan → Socket × List Output
unfolding resend_from is_lost
finish_sack h base a =
    let first = sub32 base 1 in
    let resends = if is_lost a.socket first a.count then u16 first ∷ a.resends else a.resends in
    let (s, back_off, outputs) = resend_from h 4 resends a.socket in
    (
      record s {
        cc = if back_off then maybe_decay_win s.cc h.current_ms else s.cc;
        duplicate_ack = u8 a.count;
      },
      outputs,
    )

unfoldable pub selective_ack : Host → Socket → ℕ → List ℕ → ℕ → Socket × List Output
unfolding scan_from finish_sack
selective_ack h s base mask len =
    if s.cur_window_packets == 0
    then (s, [])
    else finish_sack h base
        (scan_from h base mask (len * 8 + 1) (record { socket = s; count = 0; resends = [] }))
