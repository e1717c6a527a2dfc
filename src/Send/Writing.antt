-- ===== src/Send/Writing.antt =====
-- `write_outgoing_packet` keeps the sender's invariant, and two rounds of its loop are enough.
use libutp.Base.{
  ℕ, suc, ◌+◌, ◌-◌, ◌%◌, ◌^◌, ◌≤◌, ◌<◌, ◌≡◌, ◌⊎◌, refl, ◌∙◌, inl, inr, none, some, arith, true,
  false, List, min, max,
}
use libutp.Base.{u16, sub64, ◌==◌, if◌then◌else◌, Bool-cases, ==_iff, none-some, ==-ne}
use mathlib.Core.Path.{subst}
use libutp.SequenceBuffer.{get, put}
use libutp.SequenceBuffer.Ring.{get-put}
use libutp.Send.{OutgoingPacket, Socket, Host, in_flight, get_rcv_window}
use libutp.Send.Write.{
  append_round, create_round, write_round, write_rounds, packet_of, extended, has_room, last_packet,
  gather,
}
use libutp.Send.Invariant.{IsSender, Sound, write-IsWindow, bytes-small}
use libutp.Send.Pushing.{ensure_size-IsWindow, push-IsWindow}

module _ {k m : ℕ} (h : Host) (s : Socket) (v : IsSender k m s) where
  create_round-IsSender :
      (payload flags : ℕ) (iovec : List (List ℕ))
      → s.cur_window_packets < 1024
      → payload < 2 ^ 64
      → m < 2 ^ 31
      → (k' : ℕ) × (s' : Socket) × (rest : List (List ℕ)) × (create_round h s payload flags iovec
          ≡ some (s', payload, rest))
        × IsSender k' m s'
        × (s'.cur_window_packets ≡ suc s.cur_window_packets)
  unfolding create_round
  create_round-IsSender payload flags iovec few small budget =
      let (k', b', e, room, v') = ensure_size-IsWindow v few in
      let pkt = packet_of h s payload flags (gather payload iovec).0 in
      let ok : Sound m (some pkt) = unfold packet_of extended in (omega arith, omega arith) in
      let idle : in_flight (some pkt) ≡ 0 = unfold packet_of extended in_flight in refl in
      let pushed = push-IsWindow v' room pkt ok idle in
      let s' : Socket = record s {
        last_rcv_win = get_rcv_window h s;
        outbuf = put b' s.seq_nr (some pkt);
        seq_nr = u16 (s.seq_nr + 1);
        cur_window_packets = suc s.cur_window_packets;
      } in
      let count : u16 (s.cur_window_packets + 1) ≡ suc s.cur_window_packets = omega arith in
      (k', s', (gather payload iovec).1, rw (e, count, create_round) refl, pushed, refl)

  -- Such a round is the last one.
  pub create_rounds-IsSender :
      (fuel packet_size payload flags : ℕ) (iovec : List (List ℕ))
      → write_round h s packet_size payload flags iovec ≡ create_round h s payload flags iovec
      → s.cur_window_packets < 1024
      → payload < 2 ^ 64
      → m < 2 ^ 31
      → (k' : ℕ) × (s' : Socket) × (rest : List (List ℕ)) × (write_rounds
            (suc fuel)
            h
            s
            packet_size
            payload
            flags
            iovec
          ≡ some (s', rest))
        × IsSender k' m s'
  unfolding write_rounds
  create_rounds-IsSender fuel packet_size payload flags iovec creates few small budget =
      let (k', s', rest, e, v', count) =
        create_round-IsSender payload flags iovec few small budget in
      let done : (payload - payload == 0) ≡ true = (==_iff _ _).1 (omega arith) in
      (k', s', rest, rw (creates, e, done) refl, v')

last_packet_lem :
    (s : Socket) (pkt : OutgoingPacket)
    → last_packet s ≡ some pkt
    → get s.outbuf (sub64 s.seq_nr 1) ≡ some pkt
unfolding last_packet
last_packet_lem s pkt e = elim (Bool-cases (s.cur_window_packets == 0)) [
  | inl empty ↦ absurd (none-some (rw empty at e))
  | inr some_out ↦ rw some_out at e
]

-- Of a last packet that has room: the bytes that it takes, which fill it or are all there are.
added_lem :
    (packet_size payload : ℕ) (pkt : OutgoingPacket)
    → has_room packet_size payload pkt ≡ true
    → let added = min (payload + pkt.payload) (max packet_size pkt.payload) - pkt.payload in
      (pkt.transmissions ≡ 0)
      × (pkt.payload + added ≤ packet_size)
      × ((payload - added ≡ 0) ⊎ (pkt.payload + added ≡ packet_size))
unfolding has_room
added_lem packet_size payload pkt room = ground arith

module _ (h : Host) (s : Socket) (pkt : OutgoingPacket) (e : last_packet s ≡ some pkt)
    (packet_size payload flags : ℕ) (iovec : List (List ℕ)) where
  write_round_room :
      has_room packet_size payload pkt ≡ true
      → write_round h s packet_size payload flags iovec
        ≡ some (append_round h s packet_size payload flags iovec pkt)
  unfolding write_round
  write_round_room room = rw (e, room, write_round) refl

  pub write_round_full :
      has_room packet_size payload pkt ≡ false
      → write_round h s packet_size payload flags iovec ≡ create_round h s payload flags iovec
  unfolding write_round
  write_round_full full = rw (e, full, write_round) refl

pub write_round-none :
    (h : Host) (s : Socket)
    → last_packet s ≡ none
    → (packet_size payload flags : ℕ) (iovec : List (List ℕ))
    → write_round h s packet_size payload flags iovec ≡ create_round h s payload flags iovec
unfolding write_round
write_round-none h s e packet_size payload flags iovec = rw (e, write_round) refl

write_rounds_step :
    (fuel : ℕ) (h : Host) (s : Socket) (packet_size payload flags : ℕ) (iovec : List (List ℕ))
    (s' : Socket) (added : ℕ) (rest : List (List ℕ))
    → write_round h s packet_size payload flags iovec ≡ some (s', added, rest)
    → write_rounds (suc fuel) h s packet_size payload flags iovec ≡ (
        if payload - added == 0
        then some (s', rest)
        else write_rounds fuel h s' packet_size (payload - added) flags rest)
unfolding write_rounds
write_rounds_step fuel h s packet_size payload flags iovec s' added rest e = rw e refl

module _ {k m : ℕ} (h : Host) (s : Socket) (v : IsSender k m s) (pkt : OutgoingPacket)
    (e : last_packet s ≡ some pkt) (packet_size payload flags : ℕ) (iovec : List (List ℕ))
    (room : has_room packet_size payload pkt ≡ true) (small : packet_size < 2 ^ 64) where
  added : ℕ
  added = min (payload + pkt.payload) (max packet_size pkt.payload) - pkt.payload

  longer : OutgoingPacket
  longer = extended h s flags pkt added (gather added iovec).0

  after : Socket
  after = (append_round h s packet_size payload flags iovec pkt).0

  append_round-IsSender : IsSender k m after
  unfolding after append_round longer added
  append_round-IsSender =
      let found = last_packet_lem s pkt e in
      let (unsent, fits, _) = added_lem packet_size payload pkt room in
      let ok = subst (Sound m) found (v.packets (sub64 s.seq_nr 1)) in
      write-IsWindow v (sub64 s.seq_nr 1) pkt found (some longer) m s.cc.cur_window (omega arith)
        (unfold extended in (omega (arith, fits), ok.1)) (bytes-small v)
        (unfold extended in_flight in rw unsent refl)

  after-last : last_packet after ≡ some longer
  unfolding after append_round longer added last_packet
  after-last = elim (Bool-cases (s.cur_window_packets == 0)) [
    | inl empty ↦ absurd (none-some (rw empty at e))
    | inr some_out ↦
        rw
          (
            some_out,
            get-put v.ring (some longer) (sub64 s.seq_nr 1) (sub64 s.seq_nr 1),
            (==_iff (sub64 s.seq_nr 1 % 2 ^ k) (sub64 s.seq_nr 1 % 2 ^ k)).1 refl,
          )
          refl
  ]

  -- What is left does not go into the same packet.
  after-full :
      (payload - added == 0) ≡ false → has_room packet_size (payload - added) longer ≡ false
  unfolding longer extended has_room added
  after-full left = filled (added_lem packet_size payload pkt room).2
    where
      filled :
          (payload - added ≡ 0) ⊎ (pkt.payload + added ≡ packet_size)
          → has_room packet_size (payload - added) longer ≡ false
      filled (inl nothing) = absurd (==-ne _ 0 left nothing)
      filled (inr full) = ground arith

  pub append_rounds-IsSender :
      s.cur_window_packets < 1024
      → payload < 2 ^ 64
      → m < 2 ^ 31
      → (k' : ℕ) × (s' : Socket) × (rest : List (List ℕ)) × (write_rounds 2 h s packet_size payload
            flags iovec
          ≡ some (s', rest))
        × IsSender k' m s'
  append_rounds-IsSender few word budget = elim (Bool-cases (payload - added == 0)) [
    | inl all ↦ (k, after, rest, step ∙ rw all refl, append_round-IsSender)
    | inr left ↦
        let (k', s', rest', e', v') =
          create_rounds-IsSender h after append_round-IsSender 0 packet_size (payload - added) flags
            rest
            (write_round_full h after longer after-last packet_size (payload - added) flags rest
              (after-full left))
            (unfold after append_round in few) (omega arith) budget in
        (k', s', rest', step ∙ rw left e', v')
  ]
    where
      rest : List (List ℕ)
      rest = (gather added iovec).1

      step : write_rounds 2 h s packet_size payload flags iovec ≡ (
          if payload - added == 0
          then some (after, rest)
          else write_rounds 1 h after packet_size (payload - added) flags rest)
      step = write_rounds_step 1 h s packet_size payload flags iovec after added rest (
          write_round_room h s pkt e packet_size payload flags iovec room
          ∙ (unfold after append_round added in refl))
