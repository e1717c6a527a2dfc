-- ===== src/Send/Acking.antt =====
-- Acknowledgements, selective ones too, and lost packets keep the sender's invariant.
use libutp.Base.{
  ℕ, zero, suc, ◌+◌, ◌-◌, ◌*◌, ◌^◌, ◌<◌, ◌≡◌, ◌≢◌, ◌&&◌, ◌||◌, refl, sym, ◌∙◌, inl, inr, none, some,
  arith, true, false, Bool, List, [], ◌∷◌,
}
use libutp.Base.{u16, u64, sub64, ltb, ◌==◌, if◌then◌else◌, Bool-cases, Option-cases, ==-ne, sub32}
use mathlib.Core.Path.{subst}
use libutp.SequenceBuffer.{get}
use libutp.SequenceBuffer.Ring.{take-eq-put}
use libutp.Ledbat.{Ledbat, update_rtt, restart_rto, sample_rtt, remove_in_flight, maybe_decay_win}
use libutp.Ledbat.Timers.{set_retransmit_timeout, set_rto_timeout, set_retransmit_count}
use libutp.Send.{OutgoingPacket, Socket, Host, in_flight, send_packet}
use libutp.Send.Acks.{
  ack_packet, acked_packet, acked_timer, landed, after_first, Scan, scan_packet, scan_at, scan_from,
  is_lost, resend_from, finish_sack, selective_ack, bit_set,
}
use libutp.Send.Timeouts.{lose_packet, lose_at, lose_from}
use libutp.Send.Invariant.{IsSender, IsWindow, Sound, weaken, write-IsWindow, bytes-small}
use libutp.Send.Flushing.{Keeps, send_packet-Keeps}

acked_timer_lem :
    (h : Host) (c : Ledbat) (pkt : OutgoingPacket) → (acked_timer h c pkt).cur_window ≡ c.cur_window
unfolding acked_timer update_rtt restart_rto sample_rtt set_rto_timeout set_retransmit_timeout
acked_timer_lem h c pkt = ground arith

landed_lem :
    (c c' : Ledbat) (pkt : OutgoingPacket)
    → c'.cur_window ≡ c.cur_window
    → c.cur_window < 2 ^ 64
    → pkt.payload < 2 ^ 64
    → pkt.transmissions ≢ 0
    → ((landed c' pkt).cur_window < 2 ^ 64)
      × (u64 ((landed c' pkt).cur_window + in_flight (some pkt)) ≡ u64 (c.cur_window + 0))
unfolding landed remove_in_flight in_flight
landed_lem c c' pkt same small word sent = ground arith

module _ {k m : ℕ} where
  acked_packet-Keeps :
      (h : Host) (s : Socket) (seq : ℕ) (pkt : OutgoingPacket)
      → IsSender k m s
      → get s.outbuf seq ≡ some pkt
      → pkt.transmissions ≢ 0
      → Keeps k m s (acked_packet h s seq pkt)
  unfolding acked_packet set_retransmit_count
  acked_packet-Keeps h s seq pkt v e sent =
      let ok = subst (Sound m) e (v.packets seq) in
      let timed = acked_timer h s.cc pkt in
      let (small, moved) =
        landed_lem s.cc timed pkt (acked_timer_lem h s.cc pkt) (bytes-small v) ok.0 sent in
      let written =
        write-IsWindow v seq pkt e none m (landed timed pkt).cur_window (omega arith) (omega arith)
          small (unfold in_flight in moved) in
      (rw (take-eq-put v.ring seq) written, refl, refl)

  pub ack_packet-Keeps :
      (h : Host) (s : Socket) (seq : ℕ) → IsSender k m s → Keeps k m s (ack_packet h s seq).0
  unfolding ack_packet
  ack_packet-Keeps h s seq v = elim (Option-cases (get s.outbuf seq)) [
    | inl e ↦ rw (e, ack_packet) (v, refl, refl)
    | inr (pkt, e) ↦
        rw (e, ack_packet)
          (elim (Bool-cases (pkt.transmissions == 0)) [
            | inl unsent ↦ rw unsent (v, refl, refl)
            | inr sent ↦
                rw sent (acked_packet-Keeps h s seq pkt v e (==-ne pkt.transmissions 0 sent))
          ])
  ]

  -- A packet that is taken for lost.
  lose_packet-Keeps :
      (s : Socket) (seq : ℕ) (pkt : OutgoingPacket)
      → IsSender k m s
      → get s.outbuf seq ≡ some pkt
      → (pkt.transmissions == 0 || pkt.need_resend) ≡ false
      → Keeps k m s (lose_packet s seq pkt)
  unfolding lose_packet remove_in_flight
  lose_packet-Keeps s seq pkt v e out =
      let ok = subst (Sound m) e (v.packets seq) in
      (
        write-IsWindow v seq pkt e (some (record pkt { need_resend = true })) m
            (remove_in_flight s.cc pkt.payload).cur_window (omega arith) ok (omega arith)
            (lost_bytes pkt out ok.0),
        refl,
        refl,
      )
    where
      lost_bytes :
          (pkt : OutgoingPacket)
          → (pkt.transmissions == 0 || pkt.need_resend) ≡ false
          → pkt.payload < 2 ^ 64
          → u64 (sub64 s.cc.cur_window pkt.payload + in_flight (some pkt))
            ≡ u64 (s.cc.cur_window + in_flight (some (record pkt { need_resend = true })))
      lost_bytes pkt out small = unfold in_flight in ground arith

  pub lose_at-Keeps : (s : Socket) (seq : ℕ) → IsSender k m s → Keeps k m s (lose_at s seq)
  unfolding lose_at
  lose_at-Keeps s seq v = elim (Option-cases (get s.outbuf seq)) [
    | inl e ↦ rw (e, lose_at) (v, refl, refl)
    | inr (pkt, e) ↦
        rw (e, lose_at)
          (elim (Bool-cases (pkt.transmissions == 0 || pkt.need_resend)) [
            | inl idle ↦ rw idle (v, refl, refl)
            | inr out ↦ rw out (lose_packet-Keeps s seq pkt v e out)
          ])
  ]

  pub lose_from-Keeps :
      (rounds i : ℕ) (s : Socket) → IsSender k m s → Keeps k m s (lose_from rounds i s)
  unfolding lose_from
  lose_from-Keeps zero i s v = (v, refl, refl)
  lose_from-Keeps (suc rounds) i s v =
      let seq = sub64 (sub64 s.seq_nr i) 1 in
      let one = lose_at-Keeps s seq v in
      let rest = lose_from-Keeps rounds (i + 1) (lose_at s seq) one.0 in
      (rest.0, rest.1 ∙ one.1, rest.2 ∙ one.2)

  scan_packet-Keeps :
      (h : Host) (a : Scan) (v : ℕ) (set : Bool)
      → IsSender k m a.socket
      → Keeps k m a.socket (scan_packet h a v set).socket
  unfolding scan_packet
  scan_packet-Keeps h a v true ok = elim (Option-cases (get a.socket.outbuf v)) [
    | inl e ↦ rw (e, scan_packet) (ok, refl, refl)
    | inr (pkt, e) ↦
        rw (e, scan_packet)
          (elim (Bool-cases (pkt.transmissions == 0)) [
            | inl unsent ↦ rw unsent (ok, refl, refl)
            | inr sent ↦ rw sent (ack_packet-Keeps h a.socket v ok)
          ])
  ]
  scan_packet-Keeps h a v false ok = elim (Option-cases (get a.socket.outbuf v)) [
    | inl e ↦ rw (e, scan_packet) (ok, refl, refl)
    | inr (pkt, e) ↦
        rw (e, scan_packet)
          (elim (Bool-cases (pkt.transmissions == 0)) [
            | inl unsent ↦ rw unsent (ok, refl, refl)
            | inr sent ↦ rw sent (elim (Bool-cases (is_lost a.socket v a.count)) [
              | inl lost ↦ rw lost (ok, refl, refl)
              | inr fresh ↦ rw fresh (ok, refl, refl)
            ])
          ])
  ]

  scan_at-Keeps :
      (h : Host) (base : ℕ) (mask : List ℕ) (bits : ℕ) (a : Scan)
      → IsSender k m a.socket
      → Keeps k m a.socket (scan_at h base mask bits a).socket
  unfolding scan_at
  scan_at-Keeps h base mask bits a ok =
      elim (Bool-cases (after_first a.socket (sub32 (base + bits) 1))) [
        | inl inside ↦ rw inside (
            scan_packet-Keeps h a (sub32 (base + bits) 1) (ltb 0 bits && bit_set mask (bits - 1))
              ok)
        | inr outside ↦ rw outside (ok, refl, refl)
      ]

  scan_from-Keeps :
      (h : Host) (base : ℕ) (mask : List ℕ) (rounds : ℕ) (a : Scan)
      → IsSender k m a.socket
      → Keeps k m a.socket (scan_from h base mask rounds a).socket
  unfolding scan_from
  scan_from-Keeps h base mask zero a ok = (ok, refl, refl)
  scan_from-Keeps h base mask (suc rounds) a ok =
      let one = scan_at-Keeps h base mask rounds a ok in
      let rest = scan_from-Keeps h base mask rounds (scan_at h base mask rounds a) one.0 in
      (rest.0, rest.1 ∙ one.1, rest.2 ∙ one.2)

decayed_lem :
    (c : Ledbat) (current_ms : ℕ) (back_off : Bool)
    → (if back_off then maybe_decay_win c current_ms else c).cur_window ≡ c.cur_window
unfolding maybe_decay_win
decayed_lem c current_ms back_off = ground arith

module _ {k : ℕ} (m : ℕ) (h : Host) where
  resend_from-Keeps :
      (budget : ℕ) (vs : List ℕ) (s : Socket)
      → IsSender k (budget + m) s
      → Keeps k m s (resend_from h budget vs s).0
  unfolding resend_from
  resend_from-Keeps budget [] s v = (weaken v m (omega arith), refl, refl)
  resend_from-Keeps zero (w ∷ ws) s v = (weaken v m (omega arith), refl, refl)
  resend_from-Keeps (suc budget) (w ∷ ws) s v = elim (Option-cases (get s.outbuf w)) [
    | inl e ↦ rw (e, resend_from) (resend_from-Keeps (suc budget) ws s v)
    | inr (pkt, e) ↦
        let sent =
          send_packet-Keeps (budget + m) h s w pkt
            (subst (λ t. IsSender k t s) {x = suc budget + m} (omega arith) v) e in
        let s1 = (send_packet h s w pkt).0 in
        let rest =
          resend_from-Keeps budget ws (record s1 { fast_resend_seq_nr = u16 (w + 1) }) sent.0 in
        rw (e, resend_from) (rest.0, rest.1 ∙ sent.1, rest.2 ∙ sent.2)
  ]

  finish_sack-Keeps :
      (base : ℕ) (a : Scan)
      → IsSender k (4 + m) a.socket
      → Keeps k m a.socket (finish_sack h base a).0
  unfolding finish_sack
  finish_sack-Keeps base a v =
      let first = sub32 base 1 in
      let resends = if is_lost a.socket first a.count then u16 first ∷ a.resends else a.resends in
      let r = resend_from h 4 resends a.socket in
      let kept = resend_from-Keeps 4 resends a.socket v in
      (
        subst (IsWindow k m r.0.outbuf r.0.seq_nr r.0.cur_window_packets)
            (sym (decayed_lem r.0.cc h.current_ms r.1)) kept.0,
        kept.1,
        kept.2,
      )

  -- A selective acknowledgement sends at most four packets again.
  pub selective_ack-Keeps :
      (s : Socket) (base : ℕ) (mask : List ℕ) (len : ℕ)
      → IsSender k (4 + m) s
      → Keeps k m s (selective_ack h s base mask len).0
  unfolding selective_ack
  selective_ack-Keeps s base mask len v = elim (Bool-cases (s.cur_window_packets == 0)) [
    | inl none_out ↦ rw none_out (weaken v m (omega arith), refl, refl)
    | inr some_out ↦
        let start : Scan = record { socket = s; count = 0; resends = [] } in
        let scanned = scan_from-Keeps h base mask (len * 8 + 1) start v in
        let done = finish_sack-Keeps base (scan_from h base mask (len * 8 + 1) start) scanned.0 in
        rw some_out (done.0, done.1 ∙ scanned.1, done.2 ∙ scanned.2)
  ]
