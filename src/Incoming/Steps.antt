-- ===== src/Incoming/Steps.antt =====
-- The operations of the sending half leave the receive buffer and the extension bits as they are.
use libutp.Base.{
  ℕ, zero, suc, ◌+◌, ◌-◌, ◌≡◌, ◌||◌, not, refl, inl, inr, Option, none, some, Bool, true, false,
  List, ◌>>=◌,
}
use libutp.Base.{u16, sub16, leb, ◌==◌, Bool-cases, Option-cases, none-some}
use mathlib.Core.Path.{subst}
use mathlib.Core.Option.{some-injective}
use libutp.SequenceBuffer.{get, ensure_size}
use libutp.Ledbat.{set_initial_rto}
use libutp.Send.{
  Socket, Host, OutgoingPacket, Output, send_packet, is_full, window_full, passed, flush_pending,
  flush_one, flush_from, flush_packets, idle, get_packet_size, scan_begin,
}
use libutp.Send.Write.{
  last_packet, has_room, append_round, create_round, write_round, write_rounds,
  write_outgoing_packet,
}
use libutp.Incoming.Untouched.{Untouched, and_then, send_packet-Untouched}

passed-Untouched : (s : Socket) (i : ℕ) (in_prefix : Bool) → Untouched s (passed s i in_prefix)
unfolding passed
passed-Untouched s i true = (refl, refl)
passed-Untouched s i false = (refl, refl)

module _ (h : Host) (packet_size : ℕ) where
  flush_pending-Untouched :
      (i : ℕ) (in_prefix : Bool) (s : Socket) (pkt : OutgoingPacket)
      → Untouched s (flush_pending h packet_size i in_prefix s pkt).socket
  unfolding flush_pending is_full
  flush_pending-Untouched i in_prefix s pkt = elim (Bool-cases (window_full s none)) [
    | inl full ↦ rw full (refl, refl)
    | inr roomy ↦
        rw roomy
          (elim (Bool-cases (
            not (i == sub16 s.seq_nr 1)
            || (s.cur_window_packets == 1 || leb packet_size pkt.payload))) [
              | inl now ↦ rw now (
                  and_then s (send_packet h s i pkt).0
                    (passed (send_packet h s i pkt).0 i in_prefix) (send_packet-Untouched h s i pkt)
                    (passed-Untouched (send_packet h s i pkt).0 i in_prefix))
              | inr later ↦ rw later (refl, refl)
            ])
  ]

  flush_one-Untouched :
      (i : ℕ) (in_prefix : Bool) (s : Socket)
      → Untouched s (flush_one h packet_size i in_prefix s).socket
  unfolding flush_one
  flush_one-Untouched i in_prefix s = elim (Option-cases (get s.outbuf i)) [
    | inl e ↦ rw (e, flush_one) (passed-Untouched s i in_prefix)
    | inr (pkt, e) ↦
        rw (e, flush_one)
          (elim (Bool-cases (idle (some pkt))) [
            | inl waits ↦ rw waits (passed-Untouched s i in_prefix)
            | inr pending ↦ rw pending (flush_pending-Untouched i in_prefix s pkt)
          ])
  ]

  flush_from-Untouched :
      (rounds i : ℕ) (in_prefix : Bool) (s : Socket)
      → Untouched s (flush_from h packet_size rounds i in_prefix s).0
  unfolding flush_from
  flush_from-Untouched zero i in_prefix s = (refl, refl)
  flush_from-Untouched (suc rounds) i in_prefix s =
      let r = flush_one h packet_size i in_prefix s in
      let one = flush_one-Untouched i in_prefix s in
      elim (Bool-cases r.stop) [
        | inl stops ↦ rw stops one
        | inr goes ↦ rw goes (
            and_then s r.socket
              (flush_from h packet_size rounds (u16 (i + 1)) r.in_prefix r.socket).0 one
              (flush_from-Untouched rounds (u16 (i + 1)) r.in_prefix r.socket))
      ]

pub flush_packets-Untouched : (h : Host) (s : Socket) → Untouched s (flush_packets h s).0
unfolding flush_packets
flush_packets-Untouched h s =
    flush_from-Untouched h (get_packet_size s) (sub16 s.seq_nr (scan_begin s)) (scan_begin s) true s

-- What an operation that may fail leaves if it does not, with the socket a part of its result.
abbrev Leaves : (A : Type 0) → (A → Socket) → Socket → Option A → Type 0
Leaves A of s o = (a : A) → o ≡ some a → Untouched s (of a)

left_some :
    (A : Type 0) (of : A → Socket) (s : Socket) (a : A)
    → Untouched s (of a)
    → Leaves A of s (some a)
left_some A of s a same a' e = subst (λ (r : A). Untouched s (of r)) (some-injective a a' e) same

abbrev Round : Type 0
Round = Socket × ℕ × List (List ℕ)

create_round-Leaves :
    (h : Host) (s : Socket) (payload flags : ℕ) (iovec : List (List ℕ))
    → Leaves Round (λ r. r.0) s (create_round h s payload flags iovec)
unfolding create_round
create_round-Leaves h s payload flags iovec =
    elim (Option-cases (ensure_size s.outbuf s.seq_nr s.cur_window_packets)) [
      | inl e ↦ rw e (λ r d. absurd (none-some d))
      | inr (b, e) ↦ rw e (left_some Round (λ r. r.0) s _ (refl, refl))
    ]

write_round-Leaves :
    (h : Host) (s : Socket) (packet_size payload flags : ℕ) (iovec : List (List ℕ))
    → Leaves Round (λ r. r.0) s (write_round h s packet_size payload flags iovec)
unfolding write_round append_round
write_round-Leaves h s packet_size payload flags iovec = elim (Option-cases (last_packet s)) [
  | inl e ↦ rw (e, write_round) (create_round-Leaves h s payload flags iovec)
  | inr (pkt, e) ↦
      rw (e, write_round)
        (elim (Bool-cases (has_room packet_size payload pkt)) [
          | inl room ↦ rw room (left_some Round (λ r. r.0) s _ (refl, refl))
          | inr full ↦ rw full (create_round-Leaves h s payload flags iovec)
        ])
]

write_rounds-Leaves :
    (fuel : ℕ) (h : Host) (s : Socket) (packet_size payload flags : ℕ) (iovec : List (List ℕ))
    → Leaves
        (Socket × List (List ℕ))
        (λ r. r.0)
        s
        (write_rounds fuel h s packet_size payload flags iovec)
unfolding write_rounds
write_rounds-Leaves zero h s packet_size payload flags iovec = λ r e. absurd (none-some e)
write_rounds-Leaves (suc fuel) h s packet_size payload flags iovec =
    elim (Option-cases (write_round h s packet_size payload flags iovec)) [
      | inl e ↦ rw e (λ r d. absurd (none-some d))
      | inr ((s1, added, rest), e) ↦
          let one = write_round-Leaves h s packet_size payload flags iovec (s1, added, rest) e in
          rw e (elim (Bool-cases (payload - added == 0)) [
            | inl done ↦ rw done (left_some (Socket × List (List ℕ)) (λ r. r.0) s (s1, rest) one)
            | inr goes ↦ rw goes (λ r d.
                and_then s s1 r.0 one
                  (write_rounds-Leaves fuel h s1 packet_size (payload - added) flags rest r d))
          ])
    ]

pub write_outgoing_packet-Untouched :
    (h : Host) (s : Socket) (payload flags : ℕ) (iovec : List (List ℕ))
    (r : Socket × List (List ℕ) × List Output)
    → write_outgoing_packet h s payload flags iovec ≡ some r
    → Untouched s r.0
unfolding write_outgoing_packet
write_outgoing_packet-Untouched h s payload flags iovec =
    elim (Bool-cases (s.cur_window_packets == 0)) [
      | inl first ↦
          rw first (rounds (record s { cc = set_initial_rto s.cc h.current_ms }) (refl, refl))
      | inr later ↦ rw later (rounds s (refl, refl))
    ]
  where
    Written : Type 0
    Written = Socket × List (List ℕ) × List Output

    flushed : Socket × List (List ℕ) → Written
    flushed (s1, rest) = ((flush_packets h s1).0, rest, (flush_packets h s1).2)

    rounds :
        (s0 : Socket)
        → Untouched s s0
        → Leaves Written
            (λ r. r.0)
            s
            (write_rounds 2 h s0 (get_packet_size s0) payload flags iovec >>= λ q. some (flushed q))
    rounds s0 same =
        elim (Option-cases (write_rounds 2 h s0 (get_packet_size s0) payload flags iovec)) [
          | inl e ↦ rw e (λ r d. absurd (none-some d))
          | inr ((s1, rest), e) ↦ rw e (
              left_some Written (λ r. r.0) s (flushed (s1, rest))
                (and_then s s0 (flush_packets h s1).0 same (
                  and_then s0 s1 (flush_packets h s1).0
                    (write_rounds-Leaves 2 h s0 (get_packet_size s0) payload flags iovec (s1, rest)
                      e)
                    (flush_packets-Untouched h s1))))
        ]
