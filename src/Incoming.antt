-- ===== src/Incoming.antt =====
-- src/utp_process.cpp, `process_incoming` and `process_acks`: a datagram of a connection, from its bytes
-- to the packets, callbacks and acknowledgements that it causes. The arithmetic of `double` is a
-- parameter, as in the controller. The count of bytes that the function returns, which only the
-- statistics use, is left out.
pub mod Untouched
pub mod Intake
pub mod Inbox
pub mod Totality
pub mod Steps
pub mod Timers
pub mod Life
mod Tests
use libutp.Base.{ℕ, ◌+◌, ◌-◌, ◌^◌, Bool, true, false, not, ◌&&◌, ◌||◌, List, [], ◌∷◌, ◌++◌}
use libutp.Base.{
  Option, none, some, ◌>>=◌, u16, u32, u64, sub16, sub32, sub64, get_or, take, drop, leb, ltb, ◌==◌,
  if◌then◌else◌,
}
use libutp.Base.Int.{ℤ, pos, quot}
use libutp.Wire.{st_state}
use libutp.DelayHistory.{add_sample, get_value, shift, wrapping_compare_less, timestamp_mask}
use libutp.Ledbat.{Ledbat, update_delay_average}
use libutp.Ledbat.Ccontrol.{Double, apply_ccontrol}
use libutp.Connection.{is_state, syn_sent, connected, connected_full}
use libutp.Parse.{ParsedPacket, Outcome, rejected, parsed, parse_packet}
use libutp.Receive.{
  ReceiveState, Effect, on_read, on_eof, schedule_ack, reorder_buffer_max_size, relative_seq,
  deliver_data,
}
use libutp.Send.{
  Socket, Host, Output, schedule, payload_read, stream_ended, delay_sample, get_packet_size,
}
use libutp.Send.Acks.{selective_ack_bytes, selective_ack}
use libutp.Send.Feedback.{send_ack}
use libutp.Send.Timeouts.{unblock}
use libutp.Send.Advance.{
  advance_send_window, ack_count, is_invalid_ack, count_duplicate, sample_from,
}

-- The peer's clock against ours: the delay on its way to us. A base that falls, by no more than ten
-- milliseconds, is a clock that drifts, and moves our own history.
unfoldable pub take_their_delay : Ledbat → ℕ → ℕ → Ledbat
take_their_delay c delay current_ms =
    let before = c.their_hist.delay_base in
    let c1 =
      if delay == 0
      then c
      else record c { their_hist = add_sample c.their_hist delay current_ms } in
    let lower = sub32 before c1.their_hist.delay_base in
    if not (before == 0)
      && wrapping_compare_less c1.their_hist.delay_base before timestamp_mask
      && leb lower 10000
    then record c1 { our_hist = shift c1.our_hist lower }
    else c1

-- The delay that the peer measured, if it did.
unfoldable pub take_our_delay : Ledbat → ℕ → ℕ → Ledbat
take_our_delay c actual_delay current_ms =
    if actual_delay == 0
    then c
    else update_delay_average
        (record c { our_hist = add_sample c.our_hist actual_delay current_ms }) actual_delay
        current_ms

-- A delay one way is at most the round trip.
unfoldable pub limit_delay : Ledbat → ℕ → Ledbat
limit_delay c min_rtt =
    let delay = get_value c.our_hist in
    if ltb min_rtt delay
    then record c { our_hist = shift c.our_hist (u32 (delay - min_rtt)) }
    else c

-- The peer's value for a delay that it has not measured is the largest `int`.
unfoldable pub actual_delay_of : ParsedPacket → ℕ
actual_delay_of pp = if pp.reply_micro == 2 ^ 31 - 1 then 0 else pp.reply_micro

-- What `process_acks` does to the controller before it is asked for a new window.
unfoldable pub measure : Host → Ledbat → ParsedPacket → ℕ → ℕ → Ledbat
unfolding take_their_delay take_our_delay limit_delay actual_delay_of
measure h c pp their_delay min_rtt =
    let c1 = take_their_delay c their_delay h.current_ms in
    let c2 = take_our_delay c1 (actual_delay_of pp) h.current_ms in limit_delay c2 min_rtt

-- The bitmap of a selective acknowledgement, with its length, which is the byte before it.
unfoldable pub bitmap : List ℕ → ℕ → List ℕ × ℕ
bitmap bytes at = (drop at bytes, get_or bytes (at - 1) 0)

-- The packets that are acknowledged: their bytes and the least round trip, from `INT64_MAX` on.
unfoldable pub sample : Host → Socket → List ℕ → ParsedPacket → ℕ → Socket × ℕ × ℕ
unfolding bitmap
sample h s bytes pp acks =
    let (s1, acked_bytes, min_rtt) = sample_from h acks 0 (s, 0, 2 ^ 63 - 1) in
    elim pp.selack [
      | none ↦ (s1, acked_bytes, min_rtt)
      | some at ↦
          let (mask, len) = bitmap bytes at in
          let (more, min_rtt') = selective_ack_bytes h s1 (u16 (pp.ack_nr + 2)) mask len min_rtt in
          (s1, u64 (acked_bytes + more), min_rtt')
    ]

unfoldable pub process_acks :
    Double → Host → Socket → List ℕ → ParsedPacket → ℕ → Socket × List Output
unfolding sample measure actual_delay_of
process_acks d h s bytes pp acks =
    let (s1, acked_bytes, min_rtt) = sample h s bytes pp acks in
    let their_delay = if pp.timestamp == 0 then 0 else u32 (sub64 h.microseconds pp.timestamp) in
    let cc = measure h s1.cc pp their_delay min_rtt in
    let s2 = record s1 { cc = cc; reply_micro = their_delay; last_measured_delay = h.current_ms } in
    let (cc', our_delay) =
      apply_ccontrol d cc acked_bytes min_rtt h.current_ms s.opt_sndbuf s.target_delay
        (get_packet_size s2) in
    if not (actual_delay_of pp == 0) && leb 1 acked_bytes
    then (record s2 { cc = cc' }, delay_sample (quot our_delay 1000) ∷ [])
    else (s2, [])

unfoldable pub take_selack : Host → Socket → List ℕ → ParsedPacket → Socket × List Output
unfolding bitmap
take_selack h s bytes pp = elim pp.selack [
  | none ↦ (s, [])
  | some at ↦ let (mask, len) = bitmap bytes at in selective_ack h s (pp.ack_nr + 2) mask len
]

-- All that a packet acknowledges.
unfoldable pub acknowledge : Double → Host → Socket → List ℕ → ParsedPacket → Socket × List Output
unfolding process_acks take_selack
acknowledge d h s bytes pp =
    let acks = ack_count s pp.ack_nr in
    let s1 = count_duplicate h s pp.type pp.ack_nr in
    let (s2, sampled) = process_acks d h s1 bytes pp acks in
    let (s3, advanced) = advance_send_window h s2 pp.type pp.ack_nr pp.windowsize acks in
    let (s4, resent) = take_selack h s3 bytes pp in
    let (s5, writable) = unblock h s4 in (s5, sampled ++ (advanced ++ (resent ++ writable)))

-- An effect of `deliver_data`. The acknowledgement of the end of the stream is sent with the state
-- that the delivery ends with: after it the loop stops.
unfoldable pub perform : Host → Socket → Effect → Socket × List Output
perform h s (on_read payload) = (s, payload_read payload ∷ [])
perform h s on_eof = (s, stream_ended ∷ [])
perform h s (Effect.set_rto_timeout t) =
    (record s { cc = libutp.Ledbat.Timers.set_rto_timeout s.cc t }, [])
perform h s (Effect.send_ack ack_nr) = send_ack h s
perform h s schedule_ack = (s, schedule ∷ [])

unfoldable pub perform_all : Host → Socket → List Effect → Socket × List Output
unfolding perform
perform_all h s [] = (s, [])
perform_all h s (e ∷ es) =
    let (s1, outputs) = perform h s e in
    let (s2, more) = perform_all h s1 es in (s2, outputs ++ more)

-- The data of a packet of an open connection.
unfoldable pub deliver : Host → Socket → List ℕ → ParsedPacket → ℕ → Option (Socket × List Output)
unfolding perform_all
deliver h s bytes pp seqnr = do
  let recv = record s.recv { read_shutdown = s.conn.read_shutdown }
  let payload = take (pp.end - pp.payload) (drop pp.payload bytes)
  (recv', effects) ←
      deliver_data (record { current_ms = h.current_ms; rto = s.cc.rto }) recv pp.type pp.seq_nr
        seqnr payload
  some (perform_all h (record s { recv = recv' }) effects)

unfoldable pub is_open : Socket → Bool
is_open s = is_state s.conn.state connected || is_state s.conn.state connected_full

-- The answer to a SYN of ours sets the number from which data are awaited.
unfoldable pub arrived : Host → Socket → ParsedPacket → Socket
arrived h s pp =
    let s1 = record s { last_got_packet = h.current_ms } in
    if is_state s.conn.state syn_sent
    then record s1 { recv = record s.recv { ack_nr = sub16 pp.seq_nr 1 } }
    else s1

-- A packet that has been parsed.
unfoldable pub take_packet :
    Double → Host → Socket → List ℕ → ParsedPacket → Bool → Option (Socket × List Output)
unfolding arrived acknowledge deliver is_open
take_packet d h s bytes pp syn =
    let s1 = arrived h s pp in
    let seqnr = relative_seq s1.recv pp.seq_nr in
    let (s2, outputs) = acknowledge d h s1 bytes pp in
    if is_invalid_ack s pp.type pp.ack_nr
    then some (s, [])
    else if syn
    then some (s1, [])
    else if leb reorder_buffer_max_size seqnr
    then some (
      s1,
      if leb (0x1_0000 - reorder_buffer_max_size) seqnr && not (pp.type == st_state)
          then schedule ∷ []
          else [],
    )
    else if pp.type == st_state || not (is_open s2)
    then some (s2, outputs)
    else (do (s3, more) ← deliver h s2 bytes pp seqnr; some (s3, outputs ++ more))

-- `none` is a read past the end of the packet, or a loop without an end.
unfoldable pub process_incoming :
    Double → Host → Socket → List ℕ → Bool → Option (Socket × List Output)
unfolding take_packet
process_incoming d h s bytes syn = elim (parse_packet bytes s.extensions) [
  | Outcome.fault ↦ none
  | Outcome.endless ↦ none
  | rejected extensions ↦ some (record s { extensions = extensions }, [])
  | parsed pp extensions ↦
      take_packet d (record h { current_ms = h.milliseconds })
        (record s { extensions = extensions }) bytes pp syn
]
