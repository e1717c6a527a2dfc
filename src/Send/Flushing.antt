-- ===== src/Send/Flushing.antt =====
-- `flush_packets` keeps the sender's invariant.
use libutp.Base.{
  ℕ, zero, suc, ◌+◌, ◌^◌, ◌≤◌, ◌<◌, ◌≡◌, ◌||◌, not, refl, ◌∙◌, inl, inr, Option, none, some, arith,
  true, false, Bool,
}
use libutp.Base.{u16, sub16, leb, ◌==◌, Bool-cases, Option-cases}
use mathlib.Core.Path.{subst}
use libutp.SequenceBuffer.{get}
use libutp.Ledbat.{mark_window_full}
use libutp.Send.{
  OutgoingPacket, Socket, Host, send_packet, send_data, probing, is_full, window_full, passed, idle,
  flush_pending, flush_one, flush_from, flush_packets, scan_begin, window_start, get_packet_size,
}
use libutp.Send.Invariant.{IsSender, small_ring, weaken, send_packet-IsSender}

-- The invariant of a socket whose window is that of `s`.
abbrev pub Keeps : ℕ → ℕ → Socket → Socket → Type 0
Keeps k m s s' =
    IsSender k m s' × (s'.seq_nr ≡ s.seq_nr) × (s'.cur_window_packets ≡ s.cur_window_packets)

module _ {k : ℕ} where
  pub is_full-Keeps :
      (m : ℕ) (h : Host) (s : Socket) (bytes : Option ℕ)
      → IsSender k m s
      → Keeps k m s (is_full h s bytes).0
  unfolding is_full mark_window_full
  is_full-Keeps m h s bytes v = elim (Bool-cases (window_full s bytes)) [
    | inl full ↦ rw full (v, refl, refl)
    | inr roomy ↦ rw roomy (v, refl, refl)
  ]

  pub passed-Keeps :
      (m : ℕ) (s0 s : Socket) (i : ℕ) (in_prefix : Bool)
      → Keeps k m s0 s
      → Keeps k m s0 (passed s i in_prefix)
  unfolding passed
  passed-Keeps m s0 s i true v = v
  passed-Keeps m s0 s i false v = v

  pub send_packet-Keeps :
      (m : ℕ) (h : Host) (s : Socket) (seq : ℕ) (pkt : OutgoingPacket)
      → IsSender k (suc m) s
      → get s.outbuf seq ≡ some pkt
      → Keeps k m s (send_packet h s seq pkt).0
  send_packet-Keeps m h s seq pkt v e = (
    send_packet-IsSender h s seq pkt v e,
    unfold send_packet probing send_data in refl,
    unfold send_packet probing send_data in refl,
  )

  module _ (m : ℕ) (h : Host) (packet_size : ℕ) (in_prefix : Bool) (s : Socket) (i : ℕ)
      (v : IsSender k (suc m) s) where
    flush_pending-Keeps :
        (pkt : OutgoingPacket)
        → get s.outbuf i ≡ some pkt
        → Keeps k m s (flush_pending h packet_size i in_prefix s pkt).socket
    unfolding flush_pending is_full mark_window_full
    flush_pending-Keeps pkt e = elim (Bool-cases (window_full s none)) [
      | inl full ↦ rw full (weaken v m (omega arith), refl, refl)
      | inr roomy ↦ rw roomy (elim (Bool-cases (sends pkt)) [
        | inl now ↦ rw now (
            passed-Keeps m s (send_packet h s i pkt).0 i in_prefix
              (send_packet-Keeps m h s i pkt v e))
        | inr later ↦ rw later (weaken v m (omega arith), refl, refl)
      ])
    ]
      where
        sends : OutgoingPacket → Bool
        sends pkt =
            not (i == sub16 s.seq_nr 1)
            || (s.cur_window_packets == 1 || leb packet_size pkt.payload)

    pub flush_one-Keeps : Keeps k m s (flush_one h packet_size i in_prefix s).socket
    unfolding flush_one
    flush_one-Keeps = elim (Option-cases (get s.outbuf i)) [
      | inl e ↦
          rw (e, flush_one) (passed-Keeps m s s i in_prefix (weaken v m (omega arith), refl, refl))
      | inr (pkt, e) ↦
          rw (e, flush_one)
            (elim (Bool-cases (idle (some pkt))) [
              | inl waits ↦
                  rw waits (passed-Keeps m s s i in_prefix (weaken v m (omega arith), refl, refl))
              | inr pending ↦ rw pending (flush_pending-Keeps pkt e)
            ])
    ]

module _ {k : ℕ} (m : ℕ) (h : Host) (packet_size : ℕ) where
  flush_from-Keeps :
      (n i : ℕ) (in_prefix : Bool) (s : Socket)
      → IsSender k (n + m) s
      → Keeps k m s (flush_from h packet_size n i in_prefix s).0
  unfolding flush_from
  flush_from-Keeps zero i in_prefix s v = (weaken v m (omega arith), refl, refl)
  flush_from-Keeps (suc n) i in_prefix s v =
      let one =
        flush_one-Keeps (n + m) h packet_size in_prefix s i
          (subst (λ t. IsSender k t s) {x = suc n + m} (omega arith) v) in
      let r = flush_one h packet_size i in_prefix s in
      let rest = flush_from-Keeps n (u16 (i + 1)) r.in_prefix r.socket one.0 in
      elim (Bool-cases r.stop) [
        | inl stops ↦ rw stops (weaken one.0 m (omega arith), one.1, one.2)
        | inr goes ↦ rw goes (rest.0, rest.1 ∙ one.1, rest.2 ∙ one.2)
      ]

-- The scan begins in the window, however old the cursor is.
scan_begin_lem :
    (s : Socket)
    → s.seq_nr < 2 ^ 16
    → s.cur_window_packets < 2 ^ 16
    → sub16 s.seq_nr (scan_begin s) ≤ s.cur_window_packets
unfolding scan_begin window_start
scan_begin_lem s word few = ground arith

pub flush_packets-Keeps :
    {k : ℕ} (m : ℕ) (h : Host) (s : Socket)
    → IsSender k (s.cur_window_packets + m) s
    → Keeps k m s (flush_packets h s).0
unfolding flush_packets
flush_packets-Keeps {k} m h s v =
    let few = scan_begin_lem s v.word (omega (arith, v.fits, small_ring k v.bits)) in
    flush_from-Keeps m h (get_packet_size s) (sub16 s.seq_nr (scan_begin s)) (scan_begin s) true s
      (weaken v (sub16 s.seq_nr (scan_begin s) + m) (omega (arith, few)))
