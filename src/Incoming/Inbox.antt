-- ===== src/Incoming/Inbox.antt =====
-- `deliver_data` of any packet in the window ends, its FINs included, and keeps the receive buffer sound.
use libutp.Base.{
  ℕ, zero, suc, ◌+◌, ◌^◌, ◌≤◌, ◌<◌, ◌≡◌, ◌&&◌, not, refl, inl, inr, arith, Option, some, List, [],
  ◌∷◌, ◌++◌,
}
use libutp.Base.{u16, sub16, ltb, ◌==◌, Bool-cases, Option-cases, ==-ne, ltb-false}
use libutp.Wire.{st_fin}
use libutp.SequenceBuffer.{SequenceBuffer, get, put, take}
use libutp.SequenceBuffer.Ring.{IsRing, put-IsRing, take-IsRing}
use libutp.SequenceBuffer.Window.{ensure_size_lem}
use libutp.Receive.{
  ReceiveState, Effect, Timing, read, reach_fin, drain, note_fin, deliver_in_order, file,
  keep_ahead, deliver_data,
}
use libutp.Receive.Slots.{eleven}

-- The packets that wait are in a ring of at most 2048 slots, and are counted in 16 bits.
pub record IsInbox (r : ReceiveState) : Type 0 where
  pub bits : ℕ
  pub ring : IsRing bits r.inbuf
  pub small : bits ≤ 11
  pub counted : r.reorder_count < 2 ^ 16

-- A step of the receiver ends and leaves a sound buffer.
abbrev pub Ends : Option (ReceiveState × List Effect) → Type 0
Ends o = (r : ReceiveState) × (effects : List Effect) × (o ≡ some (r, effects)) × IsInbox r

reach_fin-IsInbox : (t : Timing) (r : ReceiveState) → IsInbox r → IsInbox (reach_fin t r).0
unfolding reach_fin
reach_fin-IsInbox t r v =
    elim (Bool-cases (not r.got_fin_reached && r.got_fin && r.eof_pkt == r.ack_nr)) [
      | inl reached ↦
          rw reached
            (record { bits = v.bits; ring = v.ring; small = v.small; counted = omega arith })
      | inr goes ↦ rw goes v
    ]

reach_fin-reorder_count :
    (t : Timing) (r : ReceiveState) → (reach_fin t r).0.reorder_count ≤ r.reorder_count
unfolding reach_fin
reach_fin-reorder_count t r = ground arith

-- The state after a packet that waited.
abbrev next : ReceiveState → ReceiveState
next r1 = record r1 {
  inbuf = (take r1.inbuf (r1.ack_nr + 1)).1;
  ack_nr = u16 (r1.ack_nr + 1);
  reorder_count = sub16 r1.reorder_count 1;
}

next-IsInbox : (r1 : ReceiveState) → IsInbox r1 → IsInbox (next r1)
next-IsInbox r1 v = record {
  bits = v.bits;
  ring = take-IsRing v.ring (r1.ack_nr + 1);
  small = v.small;
  counted = omega arith;
}

-- Every packet that waited lowers the count, so that the loop ends within its fuel.
drain-Ends :
    (t : Timing) (fuel : ℕ) (r : ReceiveState)
    → IsInbox r
    → r.reorder_count < fuel
    → Ends (drain t fuel r)
unfolding drain
drain-Ends t zero r v few = absurd (omega (arith, few))
drain-Ends t (suc fuel) r v few =
    let r1 = (reach_fin t r).0 in
    let v1 = reach_fin-IsInbox t r v in
    elim (Bool-cases (r1.reorder_count == 0)) [
      | inl empty ↦ rw empty (r1, (reach_fin t r).1, refl, v1)
      | inr waits ↦ elim (Option-cases (take r1.inbuf (r1.ack_nr + 1)).0) [
        | inl e ↦
            rw (waits, e, drain)
              (
                record r1 { inbuf = (take r1.inbuf (r1.ack_nr + 1)).1 },
                (reach_fin t r).1,
                refl,
                record {
                  bits = v1.bits;
                  ring = take-IsRing v1.ring (r1.ack_nr + 1);
                  small = v1.small;
                  counted = v1.counted;
                },
              )
        | inr (payload, e) ↦
            let (r2, effects, done, v2) =
              drain-Ends t fuel (next r1) (next-IsInbox r1 v1)
                (omega (arith, few, v1.counted, reach_fin-reorder_count t r, ==-ne _ 0 waits)) in
            rw (waits, e, drain, done)
              (r2, (reach_fin t r).1 ++ (read r1 payload ++ effects), refl, v2)
      ]
    ]

note_fin-IsInbox :
    (r : ReceiveState) (type seq_nr : ℕ) → IsInbox r → IsInbox (note_fin r type seq_nr)
unfolding note_fin
note_fin-IsInbox r type seq_nr v = elim (Bool-cases (type == st_fin && not r.got_fin)) [
  | inl fin ↦ rw fin (record { bits = v.bits; ring = v.ring; small = v.small; counted = v.counted })
  | inr other ↦ rw other v
]

deliver_in_order-Ends :
    (t : Timing) (r : ReceiveState) (payload : List ℕ)
    → IsInbox r
    → Ends (deliver_in_order t r payload)
unfolding deliver_in_order
deliver_in_order-Ends t r payload v =
    let r1 : ReceiveState = record r { ack_nr = u16 (r.ack_nr + 1) } in
    let v1 : IsInbox r1 = record {
      bits = v.bits;
      ring = v.ring;
      small = v.small;
      counted = v.counted;
    } in
    let (r2, effects, done, v2) = drain-Ends t (r1.reorder_count + 1) r1 v1 (omega arith) in
    rw done (r2, read r payload ++ (effects ++ Effect.schedule_ack ∷ []), refl, v2)

file-Ends :
    (r : ReceiveState) (k : ℕ) (inbuf : SequenceBuffer (List ℕ)) (seq_nr : ℕ) (payload : List ℕ)
    → IsRing k inbuf
    → k ≤ 11
    → IsInbox r
    → Ends (file r inbuf seq_nr payload)
unfolding file
file-Ends r k inbuf seq_nr payload ring small v = elim (Option-cases (get inbuf seq_nr)) [
  | inr (old, e) ↦
      rw (e, file)
        (
          record r { inbuf = inbuf },
          [],
          refl,
          record { bits = k; ring = ring; small = small; counted = v.counted },
        )
  | inl e ↦
      rw (e, file)
        (
          record r {
            inbuf = put inbuf seq_nr (some payload);
            reorder_count = u16 (r.reorder_count + 1);
          },
          Effect.schedule_ack ∷ [],
          refl,
          record {
            bits = k;
            ring = put-IsRing ring seq_nr (some payload);
            small = small;
            counted = omega arith;
          },
        )
]

keep_ahead-Ends :
    (r : ReceiveState) (seq_nr seqnr : ℕ) (payload : List ℕ)
    → IsInbox r
    → Ends (keep_ahead r seq_nr seqnr payload)
unfolding keep_ahead
keep_ahead-Ends r seq_nr seqnr payload v =
    elim (Bool-cases (r.got_fin && ltb (sub16 (sub16 r.eof_pkt r.ack_nr) 1) seqnr)) [
      | inl past ↦ rw past (r, [], refl, v)
      | inr before ↦ rw before (elim (Bool-cases (ltb 0x3ff seqnr)) [
        | inl far ↦ rw far (r, [], refl, v)
        | inr near ↦
            let within = ltb-false 0x3ff seqnr near in
            let (m, inbuf, done, ring, above, covers, first, widened) =
              ensure_size_lem (seq_nr + 1) (seqnr + 1) v.ring (omega (arith, within)) in
            rw (near, done)
              (file-Ends r m inbuf seq_nr payload ring
                (eleven v.bits m (seqnr + 1) v.small (omega (arith, within)) first) v)
      ])
    ]

pub deliver_data-Ends :
    (t : Timing) (r : ReceiveState) (type seq_nr seqnr : ℕ) (payload : List ℕ)
    → IsInbox r
    → Ends (deliver_data t r type seq_nr seqnr payload)
unfolding deliver_data
deliver_data-Ends t r type seq_nr seqnr payload v =
    let noted = note_fin-IsInbox r type seq_nr v in
    elim (Bool-cases (seqnr == 0)) [
      | inl awaited ↦ rw awaited (deliver_in_order-Ends t (note_fin r type seq_nr) payload noted)
      | inr ahead ↦ rw ahead (keep_ahead-Ends (note_fin r type seq_nr) seq_nr seqnr payload noted)
    ]
