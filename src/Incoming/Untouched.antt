-- ===== src/Incoming/Untouched.antt =====
-- What a packet acknowledges changes only the sending half: the receive state and the extension bits stay.
use libutp.Base.{
  ℕ, zero, suc, ◌+◌, ◌-◌, ◌*◌, ◌≡◌, ◌&&◌, not, refl, ◌∙◌, inl, inr, none, Bool, true, false, List,
  [], ◌∷◌,
}
use libutp.Base.{u16, sub32, sub64, ltb, leb, ◌==◌, if◌then◌else◌, Bool-cases, Option-cases}
use libutp.SequenceBuffer.{get}
use libutp.Send.{
  Socket, Host, OutgoingPacket, send_packet, probing, send_data, is_full, window_full, window_start,
}
use libutp.Connection.{is_state, connected_full}
use libutp.Send.Acks.{
  ack_packet, Scan, scan_packet, scan_at, scan_from, resend_from, finish_sack, selective_ack,
  is_lost, after_first, bit_set,
}
use libutp.Send.Advance.{
  first, shrink, ack_from, is_none, trim_from, trim, send_single, retry_fast, take_header,
  advance_send_window,
}
use libutp.Send.Timeouts.{unblock}

abbrev pub Untouched : Socket → Socket → Type 0
Untouched s s' = (s'.recv ≡ s.recv) × (s'.extensions ≡ s.extensions)

pub and_then : (s s' s'' : Socket) → Untouched s s' → Untouched s' s'' → Untouched s s''
and_then s s' s'' a b = (b.0 ∙ a.0, b.1 ∙ a.1)

pub send_packet-Untouched :
    (h : Host) (s : Socket) (seq : ℕ) (pkt : OutgoingPacket)
    → Untouched s (send_packet h s seq pkt).0
unfolding send_packet probing send_data
send_packet-Untouched h s seq pkt = (refl, refl)

ack_packet-Untouched : (h : Host) (s : Socket) (seq : ℕ) → Untouched s (ack_packet h s seq).0
unfolding ack_packet
ack_packet-Untouched h s seq = elim (Option-cases (get s.outbuf seq)) [
  | inl e ↦ rw (e, ack_packet) (refl, refl)
  | inr (pkt, e) ↦
      rw (e, ack_packet)
        (elim (Bool-cases (pkt.transmissions == 0)) [
          | inl unsent ↦ rw unsent (refl, refl)
          | inr sent ↦ rw sent (refl, refl)
        ])
]

ack_from-Untouched : (h : Host) (acks : ℕ) (s : Socket) → Untouched s (ack_from h acks s)
unfolding ack_from
ack_from-Untouched h zero s = (refl, refl)
ack_from-Untouched h (suc acks) s =
    let one = ack_packet-Untouched h s (first s) in
    elim (Bool-cases ((ack_packet h s (first s)).1 == 2)) [
      | inl unsent ↦ rw unsent one
      | inr left ↦ rw left (
          and_then s (ack_packet h s (first s)).0
            (ack_from h acks (shrink (ack_packet h s (first s)).0)) one
            (ack_from-Untouched h acks (shrink (ack_packet h s (first s)).0)))
    ]

trim_from-Untouched : (rounds : ℕ) (s : Socket) → Untouched s (trim_from rounds s)
unfolding trim_from
trim_from-Untouched zero s = (refl, refl)
trim_from-Untouched (suc rounds) s =
    elim (Bool-cases (ltb 0 s.cur_window_packets && is_none (get s.outbuf (first s)))) [
      | inl gone ↦ rw gone (trim_from-Untouched rounds (shrink s))
      | inr kept ↦ rw kept (refl, refl)
    ]

module _ (h : Host) (s : Socket) where
  sent_if-Untouched :
      (s' : Socket) (test : Bool) (seq : ℕ) (pkt : OutgoingPacket)
      → Untouched s s'
      → Untouched s (if test then send_packet h s' seq pkt else (s, [])).0
  sent_if-Untouched s' true seq pkt same =
      and_then s s' (send_packet h s' seq pkt).0 same (send_packet-Untouched h s' seq pkt)
  sent_if-Untouched s' false seq pkt same = (refl, refl)

  send_single-Untouched : Untouched s (send_single h s).0
  unfolding send_single
  send_single-Untouched = elim (Bool-cases (s.cur_window_packets == 1)) [
    | inr several ↦ rw several (refl, refl)
    | inl one ↦ rw one (elim (Option-cases (get s.outbuf (sub64 s.seq_nr 1))) [
      | inl e ↦ rw (e, send_single) (refl, refl)
      | inr (pkt, e) ↦
          rw (e, send_single)
            (sent_if-Untouched s (pkt.transmissions == 0) (sub64 s.seq_nr 1) pkt (refl, refl))
    ])
  ]

  retry_fast-Untouched : Untouched s (retry_fast h s).0
  unfolding retry_fast
  retry_fast-Untouched = elim (Bool-cases (not s.fast_timeout)) [
    | inl slow ↦ rw slow (refl, refl)
    | inr fast ↦ rw fast (elim (Bool-cases (not (window_start s == s.fast_resend_seq_nr))) [
      | inl ahead ↦ rw ahead (refl, refl)
      | inr here ↦ rw here (elim (Option-cases (get s.outbuf (first s))) [
        | inl e ↦ rw (e, retry_fast) (refl, refl)
        | inr (pkt, e) ↦
            rw (e, retry_fast)
              (sent_if-Untouched (record s { fast_resend_seq_nr = u16 (s.fast_resend_seq_nr + 1) })
                (ltb 0 pkt.transmissions) (first s) pkt (refl, refl))
      ])
    ])
  ]

pub advance_send_window-Untouched :
    (h : Host) (s : Socket) (type ack_nr windowsize acks : ℕ)
    → Untouched s (advance_send_window h s type ack_nr windowsize acks).0
unfolding advance_send_window trim take_header
advance_send_window-Untouched h s type ack_nr windowsize acks =
    elim (Bool-cases (leb acks s.cur_window_packets)) [
      | inr beyond ↦ rw beyond (refl, refl)
      | inl within ↦
          let s1 = (take_header h s type ack_nr windowsize acks).0 in
          let left = ack_from h acks s1 in
          let s2 = (send_single h (trim left)).0 in
          rw within (
            and_then s left (retry_fast h s2).0 (ack_from-Untouched h acks s1) (
              and_then left (trim left) (retry_fast h s2).0
                (trim_from-Untouched left.cur_window_packets left)
                (and_then (trim left) s2 (retry_fast h s2).0 (send_single-Untouched h (trim left))
                  (retry_fast-Untouched h s2))))
    ]

scan_packet-Untouched :
    (h : Host) (a : Scan) (v : ℕ) (set : Bool) → Untouched a.socket (scan_packet h a v set).socket
unfolding scan_packet
scan_packet-Untouched h a v true = elim (Option-cases (get a.socket.outbuf v)) [
  | inl e ↦ rw (e, scan_packet) (refl, refl)
  | inr (pkt, e) ↦
      rw (e, scan_packet)
        (elim (Bool-cases (pkt.transmissions == 0)) [
          | inl unsent ↦ rw unsent (refl, refl)
          | inr sent ↦ rw sent (ack_packet-Untouched h a.socket v)
        ])
]
scan_packet-Untouched h a v false = elim (Option-cases (get a.socket.outbuf v)) [
  | inl e ↦ rw (e, scan_packet) (refl, refl)
  | inr (pkt, e) ↦
      rw (e, scan_packet)
        (elim (Bool-cases (pkt.transmissions == 0)) [
          | inl unsent ↦ rw unsent (refl, refl)
          | inr sent ↦ rw sent (elim (Bool-cases (is_lost a.socket v a.count)) [
            | inl lost ↦ rw lost (refl, refl)
            | inr fresh ↦ rw fresh (refl, refl)
          ])
        ])
]

scan_at-Untouched :
    (h : Host) (base : ℕ) (mask : List ℕ) (bits : ℕ) (a : Scan)
    → Untouched a.socket (scan_at h base mask bits a).socket
unfolding scan_at
scan_at-Untouched h base mask bits a =
    elim (Bool-cases (after_first a.socket (sub32 (base + bits) 1))) [
      | inl inside ↦ rw inside (
          scan_packet-Untouched h a (sub32 (base + bits) 1) (ltb 0 bits && bit_set mask (bits - 1)))
      | inr outside ↦ rw outside (refl, refl)
    ]

scan_from-Untouched :
    (h : Host) (base : ℕ) (mask : List ℕ) (rounds : ℕ) (a : Scan)
    → Untouched a.socket (scan_from h base mask rounds a).socket
unfolding scan_from
scan_from-Untouched h base mask zero a = (refl, refl)
scan_from-Untouched h base mask (suc rounds) a =
    let a1 = scan_at h base mask rounds a in
    and_then a.socket a1.socket (scan_from h base mask rounds a1).socket
      (scan_at-Untouched h base mask rounds a) (scan_from-Untouched h base mask rounds a1)

resend_from-Untouched :
    (h : Host) (budget : ℕ) (vs : List ℕ) (s : Socket) → Untouched s (resend_from h budget vs s).0
unfolding resend_from
resend_from-Untouched h budget [] s = (refl, refl)
resend_from-Untouched h zero (w ∷ ws) s = (refl, refl)
resend_from-Untouched h (suc budget) (w ∷ ws) s = elim (Option-cases (get s.outbuf w)) [
  | inl e ↦ rw (e, resend_from) (resend_from-Untouched h (suc budget) ws s)
  | inr (pkt, e) ↦
      let s1 = (send_packet h s w pkt).0 in
      let s2 : Socket = record s1 { fast_resend_seq_nr = u16 (w + 1) } in
      rw (e, resend_from)
        (and_then s s1 (resend_from h budget ws s2).0 (send_packet-Untouched h s w pkt)
          (resend_from-Untouched h budget ws s2))
]

pub selective_ack-Untouched :
    (h : Host) (s : Socket) (base : ℕ) (mask : List ℕ) (len : ℕ)
    → Untouched s (selective_ack h s base mask len).0
unfolding selective_ack finish_sack
selective_ack-Untouched h s base mask len = elim (Bool-cases (s.cur_window_packets == 0)) [
  | inl none_out ↦ rw none_out (refl, refl)
  | inr some_out ↦
      let a =
        scan_from h base mask (len * 8 + 1) (record { socket = s; count = 0; resends = [] }) in
      let first = sub32 base 1 in
      let resends = if is_lost a.socket first a.count then u16 first ∷ a.resends else a.resends in
      rw some_out (
        and_then s a.socket (resend_from h 4 resends a.socket).0
          (scan_from-Untouched h base mask (len * 8 + 1)
            (record { socket = s; count = 0; resends = [] }))
          (resend_from-Untouched h 4 resends a.socket))
]

pub unblock-Untouched : (h : Host) (s : Socket) → Untouched s (unblock h s).0
unfolding unblock is_full
unblock-Untouched h s = elim (Bool-cases (is_state s.conn.state connected_full)) [
  | inr other ↦ rw other (refl, refl)
  | inl blocked ↦ rw blocked (elim (Bool-cases (window_full s none)) [
    | inl full ↦ rw full (refl, refl)
    | inr roomy ↦ rw roomy (refl, refl)
  ])
]
