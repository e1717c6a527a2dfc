-- ===== src/Send/Session.antt =====
-- The operations on a sender in sequence: the invariant holds after each of them.
use libutp.Base.{ℕ, ◌+◌, ◌^◌, ◌<◌, ◌≡◌, refl, inl, inr, some, arith, List}
use libutp.Base.{◌==◌, if◌then◌else◌, Bool-cases, Option-cases}
use libutp.Mtu.{effective_mtu}
use libutp.Ledbat.{set_initial_rto}
use libutp.Send.{Socket, Host, Output, get_packet_size, flush_packets}
use libutp.Send.Write.{write_rounds, write_outgoing_packet, has_room, last_packet}
use libutp.Send.Invariant.{IsSender, small_ring, weaken}
use libutp.Send.Flushing.{flush_packets-Keeps}
use libutp.Send.Writing.{
  create_rounds-IsSender, append_rounds-IsSender, write_round_full, write_round-none,
}

write_rounds-IsSender :
    {k m : ℕ} (h : Host) (s : Socket) (packet_size payload flags : ℕ) (iovec : List (List ℕ))
    → IsSender k m s
    → packet_size < 2 ^ 64
    → s.cur_window_packets < 1024
    → payload < 2 ^ 64
    → m < 2 ^ 31
    → (k' : ℕ) × (s' : Socket) × (rest : List (List ℕ)) × (write_rounds 2 h s packet_size payload
          flags iovec
        ≡ some (s', rest))
      × IsSender k' m s'
write_rounds-IsSender h s packet_size payload flags iovec v size few word budget =
    elim (Option-cases (last_packet s)) [
      | inl e ↦
          create_rounds-IsSender h s v 1 packet_size payload flags iovec
            (write_round-none h s e packet_size payload flags iovec) few word budget
      | inr (pkt, e) ↦ elim (Bool-cases (has_room packet_size payload pkt)) [
        | inl room ↦
            append_rounds-IsSender h s v pkt e packet_size payload flags iovec room size few word
              budget
        | inr full ↦
            create_rounds-IsSender h s v 1 packet_size payload flags iovec
              (write_round_full h s pkt e packet_size payload flags iovec full) few word budget
      ]
    ]

packet_size-small : (s : Socket) → get_packet_size s < 2 ^ 64
unfolding get_packet_size effective_mtu
packet_size-small s = omega arith

-- The first step of `write_outgoing_packet`.
started : Host → Socket → Socket
started h s =
    if s.cur_window_packets == 0 then record s { cc = set_initial_rto s.cc h.current_ms } else s

module _ (h : Host) (s : Socket) where
  started-IsSender : {k m : ℕ} → IsSender k m s → IsSender k m (started h s)
  unfolding started set_initial_rto
  started-IsSender v = elim (Bool-cases (s.cur_window_packets == 0)) [
    | inl empty ↦ rw empty v
    | inr some_out ↦ rw some_out v
  ]

  started-few : s.cur_window_packets < 1024 → (started h s).cur_window_packets < 1024
  unfolding started
  started-few few = ground arith

-- Where a packet fits the window, `write_outgoing_packet` ends, and keeps the invariant.
pub write_outgoing_packet-IsSender :
    {k : ℕ} (m : ℕ) (h : Host) (s : Socket) (payload flags : ℕ) (iovec : List (List ℕ))
    → IsSender k (1024 + m) s
    → s.cur_window_packets < 1024
    → payload < 2 ^ 64
    → 1024 + m < 2 ^ 31
    → (k' : ℕ) × (s' : Socket) × (rest : List (List ℕ)) × (outputs : List Output)
      × (write_outgoing_packet h s payload flags iovec ≡ some (s', rest, outputs))
      × IsSender k' m s'
unfolding write_outgoing_packet started
write_outgoing_packet-IsSender {k} m h s payload flags iovec v few word budget =
    let s0 = started h s in
    let (k', s1, rest, e, v') =
      write_rounds-IsSender h s0 (get_packet_size s0) payload flags iovec (started-IsSender h s v)
        (packet_size-small s0) (started-few h s few) word budget in
    let flushed =
      flush_packets-Keeps m h s1
        (weaken v' (s1.cur_window_packets + m) (omega (arith, v'.fits, small_ring k' v'.bits))) in
    let (s2, _, outputs) = flush_packets h s1 in (k', s2, rest, outputs, rw e refl, flushed.0)
