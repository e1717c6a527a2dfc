-- ===== src/Incoming/Intake.antt =====
-- `process_acks` and the rest of what a packet acknowledges keep the sender's invariant.
use libutp.Base.{ℕ, zero, suc, ◌+◌, ◌-◌, ◌^◌, ◌≡◌, ◌&&◌, not, refl, sym, ◌∙◌, inl, inr, arith, List}
use libutp.Base.{u16, u32, sub16, sub64, leb, ◌==◌, if◌then◌else◌, Bool-cases, Option-cases}
use mathlib.Core.Path.{subst}
use libutp.SequenceBuffer.{get}
use libutp.Wire.{st_state}
use libutp.Ledbat.{Ledbat, update_delay_average, take_delay, end_slot}
use libutp.Ledbat.Ccontrol.{Double, apply_ccontrol, choose_window}
use libutp.Parse.{ParsedPacket}
use libutp.Send.{Socket, Host, get_packet_size, window_start}
use libutp.Send.Advance.{count_duplicate, sample_at, sample_from, advance_send_window, ack_count}
use libutp.Send.Timeouts.{unblock}
use libutp.Send.Invariant.{IsWindow, IsSender, weaken}
use libutp.Send.Acking.{selective_ack-Keeps}
use libutp.Send.Advancing.{advance_send_window-IsSender}
use libutp.Send.Expiry.{unblock-IsSender}
use libutp.Incoming.{
  take_their_delay, take_our_delay, limit_delay, actual_delay_of, measure, bitmap, sample,
  process_acks, take_selack, acknowledge,
}
use libutp.Incoming.Untouched.{
  Untouched, and_then, advance_send_window-Untouched, selective_ack-Untouched, unblock-Untouched,
}

take_their_delay-cur_window :
    (c : Ledbat) (delay current_ms : ℕ)
    → (take_their_delay c delay current_ms).cur_window ≡ c.cur_window
unfolding take_their_delay
take_their_delay-cur_window c delay current_ms = ground arith

take_our_delay-cur_window :
    (c : Ledbat) (delay current_ms : ℕ)
    → (take_our_delay c delay current_ms).cur_window ≡ c.cur_window
unfolding take_our_delay update_delay_average take_delay end_slot
take_our_delay-cur_window c delay current_ms = ground arith

limit_delay-cur_window :
    (c : Ledbat) (min_rtt : ℕ) → (limit_delay c min_rtt).cur_window ≡ c.cur_window
unfolding limit_delay
limit_delay-cur_window c min_rtt = ground arith

measure-cur_window :
    (h : Host) (c : Ledbat) (pp : ParsedPacket) (their_delay min_rtt : ℕ)
    → (measure h c pp their_delay min_rtt).cur_window ≡ c.cur_window
unfolding measure
measure-cur_window h c pp their_delay min_rtt =
    let c1 = take_their_delay c their_delay h.current_ms in
    let c2 = take_our_delay c1 (actual_delay_of pp) h.current_ms in
    limit_delay-cur_window c2 min_rtt
    ∙ take_our_delay-cur_window c1 (actual_delay_of pp) h.current_ms
    ∙ take_their_delay-cur_window c their_delay h.current_ms

apply_ccontrol-cur_window :
    (d : Double) (c : Ledbat)
    (bytes_acked min_rtt current_ms opt_sndbuf target_delay packet_size : ℕ)
    → (apply_ccontrol d c bytes_acked min_rtt current_ms opt_sndbuf target_delay
        packet_size).0.cur_window
      ≡ c.cur_window
unfolding apply_ccontrol choose_window
apply_ccontrol-cur_window d c bytes_acked min_rtt current_ms opt_sndbuf target_delay packet_size =
    ground arith

-- The controller may change in all but its bytes in flight.
recontrol :
    {k m : ℕ} (s : Socket) (cc : Ledbat)
    → cc.cur_window ≡ s.cc.cur_window
    → IsSender k m s
    → IsSender k m (record s { cc = cc })
recontrol {k} {m} s cc same v =
    subst (IsWindow k m s.outbuf s.seq_nr s.cur_window_packets) (sym same) v

-- What the sampling of the acknowledged packets leaves: all but the MTU search.
abbrev Sampled : Socket → Socket → Type 0
Sampled s s' =
    (s'.outbuf ≡ s.outbuf)
    × (s'.seq_nr ≡ s.seq_nr)
    × (s'.cur_window_packets ≡ s.cur_window_packets)
    × (s'.cc ≡ s.cc)
    × Untouched s s'

sample_at-Sampled : (h : Host) (acc : Socket × ℕ × ℕ) (i : ℕ) → Sampled acc.0 (sample_at h acc i).0
unfolding sample_at
sample_at-Sampled h (s, bytes, rtt) i =
    elim (Option-cases (get s.outbuf (u16 (window_start s + i)))) [
      | inl e ↦ rw (e, sample_at) (refl, refl, refl, refl, (refl, refl))
      | inr (pkt, e) ↦
          rw (e, sample_at)
            (elim (Bool-cases (pkt.transmissions == 0)) [
              | inl unsent ↦ rw unsent (refl, refl, refl, refl, (refl, refl))
              | inr sent ↦ rw sent (refl, refl, refl, refl, (refl, refl))
            ])
    ]

sample_from-Sampled :
    (h : Host) (rounds i : ℕ) (acc : Socket × ℕ × ℕ) → Sampled acc.0 (sample_from h rounds i acc).0
unfolding sample_from
sample_from-Sampled h zero i acc = (refl, refl, refl, refl, (refl, refl))
sample_from-Sampled h (suc rounds) i acc =
    let one = sample_at-Sampled h acc i in
    let rest = sample_from-Sampled h rounds (i + 1) (sample_at h acc i) in
    (
      rest.0 ∙ one.0,
      rest.1 ∙ one.1,
      rest.2 ∙ one.2,
      rest.3 ∙ one.3,
      (rest.4.0 ∙ one.4.0, rest.4.1 ∙ one.4.1),
    )

sample-Sampled :
    (h : Host) (s : Socket) (bytes : List ℕ) (pp : ParsedPacket) (acks : ℕ)
    → Sampled s (sample h s bytes pp acks).0
unfolding sample
sample-Sampled h s bytes pp acks =
    let sampled = sample_from-Sampled h acks 0 (s, 0, 2 ^ 63 - 1) in
    elim (Option-cases pp.selack) [
      | inl e ↦ rw (e, sample) sampled
      | inr (at, e) ↦ rw (e, sample) sampled
    ]

Sampled-IsSender : {k m : ℕ} (s s' : Socket) → Sampled s s' → IsSender k m s → IsSender k m s'
Sampled-IsSender s s' same v = rw (same.0, same.1, same.2, same.3) v

-- The sender's invariant holds, and the rest of the socket is the same.
abbrev pub Intact : ℕ → ℕ → Socket → Socket → Type 0
Intact k m s s' = IsSender k m s' × Untouched s s'

process_acks-Intact :
    {k m : ℕ} (d : Double) (h : Host) (s : Socket) (bytes : List ℕ) (pp : ParsedPacket) (acks : ℕ)
    → IsSender k m s
    → Intact k m s (process_acks d h s bytes pp acks).0
unfolding process_acks
process_acks-Intact {k} {m} d h s bytes pp acks v =
    let (s1, acked_bytes, min_rtt) = sample h s bytes pp acks in
    let same = sample-Sampled h s bytes pp acks in
    let sender = Sampled-IsSender {k = k} {m = m} s s1 same v in
    let their_delay = if pp.timestamp == 0 then 0 else u32 (sub64 h.microseconds pp.timestamp) in
    let cc = measure h s1.cc pp their_delay min_rtt in
    let measured = measure-cur_window h s1.cc pp their_delay min_rtt in
    let s2 : Socket = record s1 {
      cc = cc;
      reply_micro = their_delay;
      last_measured_delay = h.current_ms;
    } in
    let controlled =
      apply_ccontrol-cur_window d cc acked_bytes min_rtt h.current_ms s.opt_sndbuf s.target_delay
        (get_packet_size s2) in
    elim (Bool-cases (not (actual_delay_of pp == 0) && leb 1 acked_bytes)) [
      | inr silent ↦ rw silent (recontrol {k = k} {m = m} s1 cc measured sender, same.4)
      | inl told ↦ rw told (
        recontrol {k = k} {m = m} s1
            (apply_ccontrol d cc acked_bytes min_rtt h.current_ms s.opt_sndbuf s.target_delay
              (get_packet_size s2)).0
            (controlled ∙ measured) sender,
        same.4,
      )
    ]

count_duplicate-Intact :
    {k m : ℕ} (h : Host) (s : Socket) (type ack_nr : ℕ)
    → IsSender k m s
    → Intact k m s (count_duplicate h s type ack_nr)
unfolding count_duplicate
count_duplicate-Intact h s type ack_nr v = elim (Bool-cases (s.cur_window_packets == 0)) [
  | inl none_out ↦ rw none_out (v, (refl, refl))
  | inr some_out ↦
      rw some_out (elim (Bool-cases (ack_nr == sub16 (window_start s) 1 && type == st_state)) [
        | inl again ↦ rw again (v, (refl, refl))
        | inr other ↦ rw other (v, (refl, refl))
      ])
]

take_selack-Intact :
    {k : ℕ} (m : ℕ) (h : Host) (s : Socket) (bytes : List ℕ) (pp : ParsedPacket)
    → IsSender k (4 + m) s
    → Intact k m s (take_selack h s bytes pp).0
unfolding take_selack bitmap
take_selack-Intact m h s bytes pp v = elim (Option-cases pp.selack) [
  | inl e ↦ rw (e, take_selack) (weaken v m (omega arith), (refl, refl))
  | inr (at, e) ↦
      let (mask, len) = bitmap bytes at in
      rw (e, take_selack)
        (
          (selective_ack-Keeps m h s (pp.ack_nr + 2) mask len v).0,
          selective_ack-Untouched h s (pp.ack_nr + 2) mask len,
        )
]

-- A packet makes the socket send at most six packets again, each once.
pub acknowledge-Intact :
    {k : ℕ} (m : ℕ) (d : Double) (h : Host) (s : Socket) (bytes : List ℕ) (pp : ParsedPacket)
    → IsSender k (6 + m) s
    → Intact k m s (acknowledge d h s bytes pp).0
unfolding acknowledge
acknowledge-Intact {k} m d h s bytes pp v =
    let acks = ack_count s pp.ack_nr in
    let s1 = count_duplicate h s pp.type pp.ack_nr in
    let s2 = (process_acks d h s1 bytes pp acks).0 in
    let s3 = (advance_send_window h s2 pp.type pp.ack_nr pp.windowsize acks).0 in
    let s4 = (take_selack h s3 bytes pp).0 in
    let counted = count_duplicate-Intact {k = k} {m = 6 + m} h s pp.type pp.ack_nr v in
    let sampled = process_acks-Intact {k = k} {m = 6 + m} d h s1 bytes pp acks counted.0 in
    let advanced =
      advance_send_window-IsSender (4 + m) h s2 pp.type pp.ack_nr pp.windowsize acks
        (weaken sampled.0 (suc (suc (4 + m))) (omega arith)) in
    let resent = take_selack-Intact m h s3 bytes pp advanced in
    (
      unblock-IsSender m h s4 resent.0,
      and_then s s1 (unblock h s4).0 counted.1 (
          and_then s1 s2 (unblock h s4).0 sampled.1 (
            and_then s2 s3 (unblock h s4).0
              (advance_send_window-Untouched h s2 pp.type pp.ack_nr pp.windowsize acks)
              (and_then s3 s4 (unblock h s4).0 resent.1 (unblock-Untouched h s4)))),
    )
