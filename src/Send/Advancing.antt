-- ===== src/Send/Advancing.antt =====
-- The window after an acknowledgement: packets leave it at its start, and the invariant is kept.
use libutp.Base.{
  ℕ, zero, suc, ◌+◌, ◌-◌, ◌%◌, ◌^◌, ◌≤◌, ◌<◌, ◌≡◌, ◌≢◌, refl, sym, ◌∙◌, inl, inr, Option, none,
  some, arith, true, false, Bool, not, [],
}
use libutp.Base.{
  u16, u64, sub16, sub64, leb, ltb, ◌==◌, if◌then◌else◌, Bool-cases, Option-cases, ltb→lt, ==-ne,
  ==_iff, leb→le, none-some,
}
use mathlib.Core.Path.{subst}
use native.Mathlib.Decide.{ℕ_discrete}
use libutp.SequenceBuffer.{SequenceBuffer, get}
use libutp.SequenceBuffer.Ring.{take_lem}
use libutp.Ledbat.{Ledbat}
use libutp.Ledbat.Timers.{set_zerowindow_time}
use libutp.Send.{OutgoingPacket, Socket, Host, outstanding, in_flight, window_start, send_packet}
use libutp.Send.Acks.{ack_packet, acked_packet}
use libutp.Send.Advance.{
  first, shrink, ack_from, is_none, trim_from, trim, send_single, retry_fast, take_header,
  advance_send_window,
}
use libutp.Send.Flight.{get_same}
use libutp.Send.Invariant.{IsSender, IsWindow, Place, small_ring, weaken, send_packet-IsSender}
use libutp.Send.Acking.{ack_packet-Keeps}

outstanding-gone :
    (b : SequenceBuffer OutgoingPacket) (seq_nr n : ℕ)
    → get b (sub64 seq_nr (suc n)) ≡ none
    → outstanding b seq_nr (suc n) ≡ outstanding b seq_nr n
unfolding outstanding in_flight
outstanding-gone b seq_nr n gone = rw gone (omega arith)

-- A window without the packet at its start, which is gone.
pub drop-IsWindow :
    {k m : ℕ} {b : SequenceBuffer OutgoingPacket} {seq_nr bytes : ℕ} (n : ℕ)
    → IsWindow k m b seq_nr (suc n) bytes
    → get b (sub64 seq_nr (suc n)) ≡ none
    → IsWindow k m b seq_nr n bytes
drop-IsWindow {k} {m} {b} {seq_nr} {bytes} n v gone = record {
  ring = v.ring;
  bits = v.bits;
  word = v.word;
  fits = omega (arith, v.fits);
  packets = v.packets;
  owned = earlier;
  balance = lighter;
}
  where
    earlier : (seq : ℕ) (pkt : OutgoingPacket) → get b seq ≡ some pkt → Place k seq_nr n seq
    earlier seq pkt e =
        let (j, hj, slot) = v.owned seq pkt e in
        elim (ℕ_discrete j n) [
          | yes last ↦ absurd (
              none-some (
                sym gone
                ∙ (sym (get_same v.ring seq (sub64 seq_nr (suc n)) (rw (← last) slot)) ∙ e)))
          | no before ↦ (j, omega (arith, hj, before), slot)
        ]

    lighter : u64 (outstanding b seq_nr n) ≡ bytes
    lighter = rw (← outstanding-gone b seq_nr n gone) v.balance

shrink-IsSender :
    {k m : ℕ} (s : Socket)
    → IsSender k m s
    → 0 < s.cur_window_packets
    → get s.outbuf (first s) ≡ none
    → IsSender k m (shrink s)
unfolding shrink first
shrink-IsSender {k} {m} s v pos gone =
    let n = s.cur_window_packets - 1 in
    let e : s.cur_window_packets ≡ suc n = omega arith in
    let e' : n ≡ sub16 s.cur_window_packets 1 = omega (arith, v.fits, small_ring k v.bits) in
    subst (λ t. IsWindow k m s.outbuf s.seq_nr t s.cc.cur_window) e'
      (drop-IsWindow n (subst (λ t. IsWindow k m s.outbuf s.seq_nr t s.cc.cur_window) e v)
        (subst (λ t. get s.outbuf (sub64 s.seq_nr t) ≡ none) e gone))

first_same :
    (s s' : Socket)
    → s'.seq_nr ≡ s.seq_nr
    → s'.cur_window_packets ≡ s.cur_window_packets
    → first s' ≡ first s
unfolding first
first_same s s' e e' = omega arith

shrunk : (s : Socket) → (shrink s).cur_window_packets ≡ sub16 s.cur_window_packets 1
unfolding shrink
shrunk s = refl

is_none_lem : (o : Option OutgoingPacket) → is_none o ≡ true → o ≡ none
unfolding is_none
is_none_lem none h = refl
is_none_lem (some pkt) h = absurd cc

module _ {k m : ℕ} where
  ack_packet-gone :
      (h : Host) (s : Socket) (seq : ℕ)
      → IsSender k m s
      → (ack_packet h s seq).1 ≢ 2
      → get (ack_packet h s seq).0.outbuf seq ≡ none
  unfolding ack_packet acked_packet
  ack_packet-gone h s seq v left = elim (Option-cases (get s.outbuf seq)) [
    | inl e ↦ rw (e, ack_packet) e
    | inr (pkt, e) ↦ elim (Bool-cases (pkt.transmissions == 0)) [
      | inl unsent ↦ absurd (left (rw (e, unsent, ack_packet) refl))
      | inr sent ↦
          rw (e, sent, ack_packet)
            ((take_lem v.ring seq seq).1 ∙ rw ((==_iff (seq % 2 ^ k) (seq % 2 ^ k)).1 refl) refl)
    ]
  ]

  -- The acknowledged packets leave the window; the number of the next one stays.
  ack_from-IsSender :
      (h : Host) (acks : ℕ) (s : Socket)
      → IsSender k m s
      → acks ≤ s.cur_window_packets
      → IsSender k m (ack_from h acks s)
  unfolding ack_from
  ack_from-IsSender h zero s v le = v
  ack_from-IsSender h (suc acks) s v le =
      let one = ack_packet-Keeps h s (first s) v in
      elim (Bool-cases ((ack_packet h s (first s)).1 == 2)) [
        | inl unsent ↦ rw unsent one.0
        | inr left ↦ rw left (
            ack_from-IsSender h acks (shrink (ack_packet h s (first s)).0)
              (shrink-IsSender (ack_packet h s (first s)).0 one.0 (omega (arith, one.2)) (
                subst (λ t. get (ack_packet h s (first s)).0.outbuf t ≡ none)
                  (sym (first_same s (ack_packet h s (first s)).0 one.1 one.2))
                  (ack_packet-gone h s (first s) v (==-ne _ 2 left))))
              (omega
                (arith, one.2, shrunk (ack_packet h s (first s)).0, v.fits, small_ring k v.bits)))
      ]

  trim_from-IsSender :
      (rounds : ℕ) (s : Socket) → IsSender k m s → IsSender k m (trim_from rounds s)
  unfolding trim_from
  trim_from-IsSender zero s v = v
  trim_from-IsSender (suc rounds) s v = elim (Bool-cases (ltb 0 s.cur_window_packets)) [
    | inr empty ↦ rw empty v
    | inl some_left ↦ rw some_left (elim (Bool-cases (is_none (get s.outbuf (first s)))) [
      | inr kept ↦ rw kept v
      | inl gone ↦ rw gone (
          trim_from-IsSender rounds (shrink s)
            (shrink-IsSender s v (ltb→lt 0 _ some_left) (is_none_lem _ gone)))
    ])
  ]

module _ {k : ℕ} (m : ℕ) (h : Host) (s : Socket) where
  sent_if :
      (s' : Socket) (test : Bool) (seq : ℕ) (pkt : OutgoingPacket)
      → IsSender k (suc m) s'
      → get s'.outbuf seq ≡ some pkt
      → IsSender k (suc m) s
      → IsSender k m (if test then send_packet h s' seq pkt else (s, [])).0
  sent_if s' true seq pkt v' e v = send_packet-IsSender h s' seq pkt v' e
  sent_if s' false seq pkt v' e v = weaken v m (omega arith)

  send_single-IsSender : IsSender k (suc m) s → IsSender k m (send_single h s).0
  unfolding send_single
  send_single-IsSender v = elim (Bool-cases (s.cur_window_packets == 1)) [
    | inr several ↦ rw several (weaken v m (omega arith))
    | inl one ↦ rw one (elim (Option-cases (get s.outbuf (sub64 s.seq_nr 1))) [
      | inl e ↦ rw (e, send_single) (weaken v m (omega arith))
      | inr (pkt, e) ↦
          rw (e, send_single) (sent_if s (pkt.transmissions == 0) (sub64 s.seq_nr 1) pkt v e v)
    ])
  ]

  retry_fast-IsSender : IsSender k (suc m) s → IsSender k m (retry_fast h s).0
  unfolding retry_fast
  retry_fast-IsSender v = elim (Bool-cases (not s.fast_timeout)) [
    | inl slow ↦ rw slow (weaken v m (omega arith))
    | inr fast ↦ rw fast (elim (Bool-cases (not (window_start s == s.fast_resend_seq_nr))) [
      | inl ahead ↦ rw ahead (weaken v m (omega arith))
      | inr here ↦ rw here (elim (Option-cases (get s.outbuf (first s))) [
        | inl e ↦ rw (e, retry_fast) (weaken v m (omega arith))
        | inr (pkt, e) ↦
            rw (e, retry_fast) (sent_if retried (ltb 0 pkt.transmissions) (first s) pkt v e v)
      ])
    ])
  ]
    where
      retried : Socket
      retried = record s { fast_resend_seq_nr = u16 (s.fast_resend_seq_nr + 1) }

zerowindow_lem :
    (c : Ledbat) (shut : Bool) (ms : ℕ)
    → (if shut then set_zerowindow_time c ms else c).cur_window ≡ c.cur_window
unfolding set_zerowindow_time
zerowindow_lem c shut ms = ground arith

take_header-IsSender :
    {k m : ℕ} (h : Host) (s : Socket) (type ack_nr windowsize acks : ℕ)
    → IsSender k m s
    → IsSender k m (take_header h s type ack_nr windowsize acks).0
unfolding take_header
take_header-IsSender {k} {m} h s type ack_nr windowsize acks v =
    subst (IsWindow k m s.outbuf s.seq_nr s.cur_window_packets)
      (sym (zerowindow_lem s.cc (windowsize == 0) (u64 (h.current_ms + 15000)))) v

-- An acknowledgement sends at most two packets.
pub advance_send_window-IsSender :
    {k : ℕ} (m : ℕ) (h : Host) (s : Socket) (type ack_nr windowsize acks : ℕ)
    → IsSender k (suc (suc m)) s
    → IsSender k m (advance_send_window h s type ack_nr windowsize acks).0
unfolding advance_send_window trim
advance_send_window-IsSender {k} m h s type ack_nr windowsize acks v =
    let s1 = (take_header h s type ack_nr windowsize acks).0 in
    elim (Bool-cases (leb acks s.cur_window_packets)) [
      | inr beyond ↦ rw beyond (weaken v m (omega arith))
      | inl within ↦
          let left = ack_from h acks s1 in
          let headed = take_header-IsSender h s type ack_nr windowsize acks v in
          let gone =
            ack_from-IsSender h acks s1 headed (unfold take_header in leb→le acks _ within) in
          let trimmed = trim_from-IsSender left.cur_window_packets left gone in
          let single = send_single-IsSender (suc m) h (trim left) trimmed in
          rw within (retry_fast-IsSender m h (send_single h (trim left)).0 single)
    ]
