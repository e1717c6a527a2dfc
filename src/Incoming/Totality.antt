-- ===== src/Incoming/Totality.antt =====
-- `process_incoming` of any bytes ends, reads nothing outside of the packet and keeps the socket sound.
use libutp.Base.{
  ℕ, ◌+◌, ◌-◌, ◌≤◌, ◌≡◌, ◌&&◌, ◌||◌, not, refl, sym, ap, ◌∙◌, inl, inr, arith, Option, some, Bool,
  List, [], ◌∷◌, ◌++◌,
}
use libutp.Base.{length, take, drop, leb, ◌==◌, if◌then◌else◌, Bool-cases}
use mathlib.Core.Path.{subst}
use libutp.Wire.{header_size, st_state}
use libutp.Connection.{is_state, syn_sent}
use libutp.Parse.{ParsedPacket, Outcome, rejected, parsed, parse_packet}
use libutp.Parse.Bounds.{IsSafe, parse_packet-IsSafe}
use libutp.Wire.RoundTrip.{IsBytes}
use libutp.Ledbat.Ccontrol.{Double}
use libutp.Receive.{
  ReceiveState, Effect, on_read, on_eof, schedule_ack, Timing, relative_seq,
  reorder_buffer_max_size,
}
use libutp.Send.{Socket, Host, Output, schedule, send_data}
use libutp.Send.Feedback.{send_ack}
use libutp.Send.Advance.{is_invalid_ack}
use libutp.Send.Invariant.{IsSender, weaken}
use libutp.Send.Trace.{IsSocket, Young, renewed}
use libutp.Ledbat.Timers
use libutp.Incoming.{
  acknowledge, perform, perform_all, deliver, is_open, arrived, take_packet, process_incoming,
}
use libutp.Incoming.Untouched.{and_then}
use libutp.Incoming.Intake.{Intact, acknowledge-Intact}
use libutp.Incoming.Inbox.{IsInbox, deliver_data-Ends}

-- Both halves of a socket are sound, and it keeps eight bytes of extension bits.
pub record IsEndpoint (s : Socket) : Type 0 where
  pub sender : IsSocket s
  pub inbox : IsInbox s.recv
  pub eight : length s.extensions ≡ 8

-- A packet is taken in to the end.
abbrev Taken : Option (Socket × List Output) → Type 0
Taken o = (s : Socket) × (outputs : List Output) × (o ≡ some (s, outputs)) × IsEndpoint s

perform-Intact :
    {k m : ℕ} (h : Host) (s : Socket) (e : Effect) → IsSender k m s → Intact k m s (perform h s e).0
unfolding perform send_ack send_data libutp.Ledbat.Timers.set_rto_timeout
perform-Intact h s (on_read payload) v = (v, (refl, refl))
perform-Intact h s on_eof v = (v, (refl, refl))
perform-Intact h s (Effect.set_rto_timeout t) v = (v, (refl, refl))
perform-Intact h s (Effect.send_ack ack_nr) v = (v, (refl, refl))
perform-Intact h s schedule_ack v = (v, (refl, refl))

perform_all-Intact :
    {k m : ℕ} (h : Host) (s : Socket) (es : List Effect)
    → IsSender k m s
    → Intact k m s (perform_all h s es).0
unfolding perform_all
perform_all-Intact h s [] v = (v, (refl, refl))
perform_all-Intact h s (e ∷ es) v =
    let s1 = (perform h s e).0 in
    let one = perform-Intact h s e v in
    let rest = perform_all-Intact h s1 es one.0 in
    (rest.0, and_then s s1 (perform_all h s1 es).0 one.1 rest.1)

-- The connection's flag for reading does not matter to the buffer.
with_read_shutdown :
    (r : ReceiveState) (off : Bool) → IsInbox r → IsInbox (record r { read_shutdown = off })
with_read_shutdown r off v = record {
  bits = v.bits;
  ring = v.ring;
  small = v.small;
  counted = v.counted;
}

deliver-IsEndpoint :
    (h : Host) (s : Socket) (bytes : List ℕ) (pp : ParsedPacket) (seqnr : ℕ)
    → IsEndpoint s
    → Taken (deliver h s bytes pp seqnr)
unfolding deliver
deliver-IsEndpoint h s bytes pp seqnr v =
    let t : Timing = record { current_ms = h.current_ms; rto = s.cc.rto } in
    let payload = take (pp.end - pp.payload) (drop pp.payload bytes) in
    let recv : ReceiveState = record s.recv { read_shutdown = s.conn.read_shutdown } in
    let (r, effects, done, sound) =
      deliver_data-Ends t recv pp.type pp.seq_nr seqnr payload
        (with_read_shutdown s.recv s.conn.read_shutdown v.inbox) in
    let (k, sender) = v.sender in
    let s1 : Socket = record s { recv = r } in
    let performed = perform_all-Intact {k = k} {m = 0} h s1 effects sender in
    rw done (
      (perform_all h s1 effects).0,
      (perform_all h s1 effects).1,
      refl,
      record {
        sender = (k, performed.0);
        inbox = subst IsInbox (sym performed.1.0) sound;
        eight = ap length performed.1.1 ∙ v.eight;
      },
    )

arrived-IsEndpoint :
    (h : Host) (s : Socket) (pp : ParsedPacket) → IsEndpoint s → IsEndpoint (arrived h s pp)
unfolding arrived
arrived-IsEndpoint h s pp v = elim (Bool-cases (is_state s.conn.state syn_sent)) [
  | inr other ↦ rw other (record { sender = v.sender; inbox = v.inbox; eight = v.eight })
  | inl connecting ↦ rw connecting (record {
    sender = v.sender;
    inbox = record {
      bits = v.inbox.bits;
      ring = v.inbox.ring;
      small = v.inbox.small;
      counted = v.inbox.counted;
    };
    eight = v.eight;
  })
]

arrived-Young : (h : Host) (s : Socket) (pp : ParsedPacket) → Young s → Young (arrived h s pp)
unfolding arrived
arrived-Young h s pp young = elim (Bool-cases (is_state s.conn.state syn_sent)) [
  | inr other ↦ rw other young
  | inl connecting ↦ rw connecting young
]

acknowledge-IsEndpoint :
    (d : Double) (h : Host) (s : Socket) (bytes : List ℕ) (pp : ParsedPacket)
    → IsEndpoint s
    → Young s
    → IsEndpoint (acknowledge d h s bytes pp).0
acknowledge-IsEndpoint d h s bytes pp v young =
    let (k, sender) = v.sender in
    let kept =
      acknowledge-Intact {k = k} 0 d h s bytes pp
        (weaken (renewed {k = k} s sender young) (6 + 0) (omega arith)) in
    record {
      sender = (k, kept.0);
      inbox = subst IsInbox (sym kept.1.0) v.inbox;
      eight = ap length kept.1.1 ∙ v.eight;
    }

take_packet-IsEndpoint :
    (d : Double) (h : Host) (s : Socket) (bytes : List ℕ) (pp : ParsedPacket) (syn : Bool)
    → IsEndpoint s
    → Young s
    → Taken (take_packet d h s bytes pp syn)
unfolding take_packet
take_packet-IsEndpoint d h s bytes pp syn v young =
    let s1 = arrived h s pp in
    let v1 = arrived-IsEndpoint h s pp v in
    let seqnr = relative_seq s1.recv pp.seq_nr in
    let s2 = (acknowledge d h s1 bytes pp).0 in
    let outputs = (acknowledge d h s1 bytes pp).1 in
    let v2 = acknowledge-IsEndpoint d h s1 bytes pp v1 (arrived-Young h s pp young) in
    let (s3, more, done, v3) = deliver-IsEndpoint h s2 bytes pp seqnr v2 in
    elim (Bool-cases (is_invalid_ack s pp.type pp.ack_nr)) [
      | inl invalid ↦ rw invalid (s, [], refl, v)
      | inr valid ↦ rw valid (elim (Bool-cases syn) [
        | inl first ↦ rw first (s1, [], refl, v1)
        | inr later ↦ rw later (elim (Bool-cases (leb reorder_buffer_max_size seqnr)) [
          | inl far ↦ rw far (
            s1,
            if leb (0x1_0000 - reorder_buffer_max_size) seqnr && not (pp.type == st_state)
                then schedule ∷ []
                else [],
            refl,
            v1,
          )
          | inr near ↦ rw near (elim (Bool-cases (pp.type == st_state || not (is_open s2))) [
            | inl only ↦ rw only (s2, outputs, refl, v2)
            | inr data_too ↦ rw (data_too, done) (s3, outputs ++ more, refl, v3)
          ])
        ])
      ])
    ]

pub process_incoming-IsEndpoint :
    (d : Double) (h : Host) (s : Socket) (bytes : List ℕ) (syn : Bool)
    → IsEndpoint s
    → Young s
    → IsBytes bytes
    → header_size ≤ length bytes
    → (s' : Socket) × (outputs : List Output) × (process_incoming d h s bytes syn
        ≡ some (s', outputs))
      × IsEndpoint s'
unfolding process_incoming IsSafe
process_incoming-IsEndpoint d h s bytes syn v young ok long =
    go (parse_packet bytes s.extensions) refl
      (parse_packet-IsSafe bytes s.extensions ok long v.eight)
  where
    go :
        (o : Outcome)
        → parse_packet bytes s.extensions ≡ o
        → IsSafe bytes o
        → Taken (process_incoming d h s bytes syn)
    go Outcome.endless e safe = absurd safe
    go Outcome.fault e safe = absurd safe
    go (rejected extensions) e safe =
        rw (e, process_incoming)
          (
            record s { extensions = extensions },
            [],
            refl,
            record { sender = v.sender; inbox = v.inbox; eight = safe },
          )
    go (parsed pp extensions) e safe =
        rw (e, process_incoming)
          (take_packet-IsEndpoint d (record h { current_ms = h.milliseconds })
            (record s { extensions = extensions }) bytes pp syn
            (record { sender = v.sender; inbox = v.inbox; eight = safe.1 }) young)
