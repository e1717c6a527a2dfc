-- ===== src/Send/Invariant.antt =====
-- The sender's invariant: the window fits the ring, and the controller's bytes in flight are those of the
-- packets that were sent and are not to be sent again.
use libutp.Base.{
  ℕ, suc, ◌+◌, ◌%◌, ◌^◌, ◌≤◌, ◌<◌, ◌≡◌, sym, ◌∙◌, inl, inr, Option, none, some, arith,
}
use libutp.Base.{==_iff, u64, sub64, ◌==◌, Bool-cases}
use mathlib.Core.Path.{subst}
use native.Mathlib.Nat.{pow-le-pow_right}
use libutp.SequenceBuffer.{SequenceBuffer, get, put}
use libutp.SequenceBuffer.Ring.{IsRing, get-put, put-IsRing}
use libutp.Ledbat.{add_in_flight}
use libutp.Send.{
  OutgoingPacket, Socket, Host, in_flight, outstanding, sent_packet, flying, send_packet, probing,
  send_data,
}
use libutp.Send.Flight.{get_same, put_same, outstanding-put}

-- A packet that can be sent `m` times more before its count wraps.
abbrev pub Sound : ℕ → Option OutgoingPacket → Type 0
Sound m none = 0 ≤ m
Sound m (some pkt) = (pkt.payload < 2 ^ 64) × (pkt.transmissions + m < 2 ^ 31)

-- `seq` finds the slot of one of the `n` packets before `seq_nr`.
abbrev pub Place : ℕ → ℕ → ℕ → ℕ → Type 0
Place k seq_nr n seq = (j : ℕ) × (j < n) × (seq % 2 ^ k ≡ sub64 seq_nr (suc j) % 2 ^ k)

-- The buffer `b` of 2 ^ k slots, with the `n` packets before `seq_nr` and `bytes` in flight.
pub record IsWindow (k m : ℕ) (b : SequenceBuffer OutgoingPacket) (seq_nr n bytes : ℕ)
    : Type 0 where
  pub ring : IsRing k b
  pub bits : k ≤ 10
  pub word : seq_nr < 2 ^ 16
  pub fits : n ≤ 2 ^ k
  pub packets : (seq : ℕ) → Sound m (get b seq)
  pub owned : (seq : ℕ) (pkt : OutgoingPacket) → get b seq ≡ some pkt → Place k seq_nr n seq
  pub balance : u64 (outstanding b seq_nr n) ≡ bytes

abbrev pub IsSender : ℕ → ℕ → Socket → Type 0
IsSender k m s = IsWindow k m s.outbuf s.seq_nr s.cur_window_packets s.cc.cur_window

pub small_ring : (k : ℕ) → k ≤ 10 → 2 ^ k ≤ 2 ^ 10
small_ring k le = pow-le-pow_right {n = 2} (omega arith) {i = k} {j = 10} le

Sound-weaken : (m m' : ℕ) (o : Option OutgoingPacket) → m' ≤ m → Sound m o → Sound m' o
Sound-weaken m m' none le h = omega arith
Sound-weaken m m' (some pkt) le h = (h.0, omega (arith, h.1))

module _ {k m : ℕ} {b : SequenceBuffer OutgoingPacket} {seq_nr n bytes : ℕ}
    (v : IsWindow k m b seq_nr n bytes) where
  pub weaken : (m' : ℕ) → m' ≤ m → IsWindow k m' b seq_nr n bytes
  weaken m' le = record {
    ring = v.ring;
    bits = v.bits;
    word = v.word;
    fits = v.fits;
    packets = λ seq. Sound-weaken m m' (get b seq) le (v.packets seq);
    owned = v.owned;
    balance = v.balance;
  }

  pub packets-write :
      (seq : ℕ) (x : Option OutgoingPacket) (m' : ℕ)
      → m' ≤ m
      → Sound m' x
      → (o : ℕ) → Sound m' (get (put b seq x) o)
  packets-write seq x m' le ok o =
      rw (get-put v.ring x seq o) (elim (Bool-cases (seq % 2 ^ k == o % 2 ^ k)) [
        | inl same ↦ rw same ok
        | inr apart ↦ rw apart (Sound-weaken m m' (get b o) le (v.packets o))
      ])

  module _ (seq : ℕ) (pkt : OutgoingPacket) (e : get b seq ≡ some pkt)
      (x : Option OutgoingPacket) where
    outstanding-write :
        outstanding (put b seq x) seq_nr n + in_flight (some pkt)
        ≡ outstanding b seq_nr n + in_flight x
    outstanding-write =
        let (j, hj, slot) = v.owned seq pkt e in
        rw
          (
            ← e,
            put_same v.ring seq (sub64 seq_nr (suc j)) x slot,
            get_same v.ring seq (sub64 seq_nr (suc j)) slot,
          )
          (outstanding-put v.ring (omega (arith, v.bits)) (omega (arith, small_ring k v.bits))
            seq_nr j (omega (arith, v.fits)) x n hj v.fits)

    owned-write : (o : ℕ) (p : OutgoingPacket) → get (put b seq x) o ≡ some p → Place k seq_nr n o
    owned-write o p found = elim (Bool-cases (seq % 2 ^ k == o % 2 ^ k)) [
      | inl same ↦
          let (j, hj, slot) = v.owned seq pkt e in (j, hj, sym ((==_iff _ _).0 same) ∙ slot)
      | inr apart ↦ v.owned o p (sym (rw apart at (get-put v.ring x seq o)) ∙ found)
    ]

    -- A packet that is replaced, with the bytes that this adds or takes.
    pub write-IsWindow :
        (m' bytes' : ℕ)
        → m' ≤ m
        → Sound m' x
        → bytes' < 2 ^ 64
        → u64 (bytes' + in_flight (some pkt)) ≡ u64 (bytes + in_flight x)
        → IsWindow k m' (put b seq x) seq_nr n bytes'
    write-IsWindow m' bytes' le ok small moved = record {
      ring = put-IsRing v.ring seq x;
      bits = v.bits;
      word = v.word;
      fits = v.fits;
      packets = packets-write seq x m' le ok;
      owned = owned-write;
      balance = omega (arith, outstanding-write, v.balance, moved);
    }

flying_lem :
    (h : Host) (s : Socket) (pkt : OutgoingPacket)
    → pkt.transmissions + 1 < 2 ^ 31
    → s.cc.cur_window < 2 ^ 64
    → ((flying s.cc pkt).cur_window < 2 ^ 64)
      × (u64 ((flying s.cc pkt).cur_window + in_flight (some pkt))
          ≡ u64 (s.cc.cur_window + in_flight (some (sent_packet h s pkt))))
unfolding flying add_in_flight in_flight sent_packet
flying_lem h s pkt few small = ground arith

pub bytes-small :
    {k m : ℕ} {b : SequenceBuffer OutgoingPacket} {seq_nr n bytes : ℕ}
    → IsWindow k m b seq_nr n bytes
    → bytes < 2 ^ 64
bytes-small v = omega (arith, v.balance)

sent-Sound :
    (m : ℕ) (h : Host) (s : Socket) (pkt : OutgoingPacket)
    → Sound (suc m) (some pkt)
    → Sound m (some (sent_packet h s pkt))
unfolding sent_packet
sent-Sound m h s pkt ok = (ok.0, omega (arith, ok.1))

-- Sending a packet of the window, once more or for the first time, keeps the balance.
pub send_packet-IsSender :
    {k m : ℕ} (h : Host) (s : Socket) (seq : ℕ) (pkt : OutgoingPacket)
    → IsSender k (suc m) s
    → get s.outbuf seq ≡ some pkt
    → IsSender k m (send_packet h s seq pkt).0
unfolding send_packet probing send_data
send_packet-IsSender {k} {m} h s seq pkt v e =
    let ok = subst (λ o. Sound (suc m) o) e (v.packets seq) in
    let (small, moved) = flying_lem h s pkt (omega (arith, ok.1)) (bytes-small v) in
    write-IsWindow v seq pkt e (some (sent_packet h s pkt)) m (flying s.cc pkt).cur_window
      (omega arith) (sent-Sound m h s pkt ok) small moved
