-- ===== src/Incoming/Life.antt =====
-- A socket from its construction on: datagrams, writes, timers and acknowledgements in any order.
use libutp.Base.{
  ℕ, ◌^◌, ◌≤◌, ◌<◌, ◌≡◌, ◌&&◌, not, sym, ap, ◌∙◌, inl, inr, arith, some, Bool, true, List,
}
use libutp.Base.{u32, sub64, length, ltb, leb, ◌==◌, Bool-cases, Option-cases, ==_iff, none-some}
use mathlib.Core.Path.{subst}
use mathlib.Core.Option.{some-injective}
use libutp.Wire.{header_size}
use libutp.Wire.RoundTrip.{IsBytes}
use libutp.SequenceBuffer.{initialize}
use libutp.SequenceBuffer.Window.{initialize_lem}
use libutp.Ledbat.Ccontrol.{Double}
use libutp.Connection.{Connection, timeout_active, is_state, uninitialized}
use libutp.Send.{Socket, Host, Output, flush_packets, check_invariant, send_data, get_rcv_window}
use libutp.Send.Acks.{selective_ack}
use libutp.Send.Advance.{advance_send_window}
use libutp.Send.Write.{write_outgoing_packet}
use libutp.Send.Feedback.{send_ack, send_keep_alive, read_drained}
use libutp.Send.Timeouts.{
  check_timeouts, flush_unless_destroyed, reopen_window, check_timer, unblock, keep_alive,
  past_connect, keepalive_interval,
}
use libutp.Send.Trace.{
  Operation, flush, timeout, write, advance, selective, run, Allowed, Young, IsSocket, run-IsSocket,
  start-IsSocket,
}
use libutp.Incoming.{process_incoming}
use libutp.Incoming.Inbox.{IsInbox}
use libutp.Incoming.Totality.{IsEndpoint, process_incoming-IsEndpoint}
use libutp.Incoming.Untouched.{
  Untouched, and_then, advance_send_window-Untouched, selective_ack-Untouched, unblock-Untouched,
}
use libutp.Incoming.Steps.{flush_packets-Untouched, write_outgoing_packet-Untouched}
use libutp.Incoming.Timers.{
  reopen_window-Untouched, check_timer-Untouched, flush_unless_destroyed-Untouched,
}

-- The receiving half of a sound socket.
abbrev Hears : Socket → Type 0
Hears s = IsInbox s.recv × (length s.extensions ≡ 8)

heard : (s s' : Socket) → Untouched s s' → Hears s → Hears s'
heard s s' same v = (subst IsInbox (sym same.0) v.0, ap length same.1 ∙ v.1)

keep_alive-Hears : (h : Host) (s : Socket) → Hears s → Hears (keep_alive h s).0
unfolding keep_alive send_keep_alive send_ack send_data
keep_alive-Hears h s v =
    elim (Bool-cases (
      past_connect s.conn.state
      && not s.conn.fin_sent
      && leb keepalive_interval (u32 (sub64 h.current_ms s.last_sent_packet)))) [
        | inr busy ↦ rw busy v
        | inl idle ↦ rw idle (
          record { bits = v.0.bits; ring = v.0.ring; small = v.0.small; counted = v.0.counted },
          v.1,
        )
      ]

check_timeouts-Hears : (h : Host) (s : Socket) → Hears s → Hears (check_timeouts h s).0
unfolding check_timeouts
check_timeouts-Hears h s v =
    let s1 = (flush_unless_destroyed h s).0 in
    let opened = reopen_window h s1 in
    let s2 = check_timer h opened in
    let s3 = (unblock h s2.0).0 in
    let v1 = heard s s1 (flush_unless_destroyed-Untouched h s) v in
    let v2 =
      heard s1 s2.0
        (and_then s1 opened s2.0 (reopen_window-Untouched h s1) (check_timer-Untouched h opened))
        v1 in
    let v3 = heard s2.0 s3 (unblock-Untouched h s2.0) v2 in
    elim (Bool-cases (not (timeout_active s1.conn.state))) [
      | inl passive ↦ rw passive v1
      | inr active ↦ rw active (elim (Bool-cases s2.1) [
        | inl returns ↦ rw returns v2
        | inr goes ↦ rw goes (keep_alive-Hears h s3 v3)
      ])
    ]

-- An operation on the sending half, as far as it returns.
run-Hears :
    (h : Host) (s : Socket) (o : Operation) (s' : Socket) → run h s o ≡ some s' → Hears s → Hears s'
unfolding run
run-Hears h s flush s' e v =
    subst Hears (some-injective (flush_packets h s).0 s' e)
      (heard s (flush_packets h s).0 (flush_packets-Untouched h s) v)
run-Hears h s timeout s' e v =
    subst Hears (some-injective (check_timeouts h s).0 s' e) (check_timeouts-Hears h s v)
run-Hears h s (write payload flags iovec) s' e v =
    elim (Option-cases (write_outgoing_packet h s payload flags iovec)) [
      | inl fails ↦ absurd (none-some (rw fails at e))
      | inr (r, writes) ↦
          subst Hears (some-injective r.0 s' (rw writes at e))
            (heard s r.0 (write_outgoing_packet-Untouched h s payload flags iovec r writes) v)
    ]
run-Hears h s (advance type ack_nr windowsize acks) s' e v =
    let s1 = (advance_send_window h s type ack_nr windowsize acks).0 in
    subst Hears (some-injective s1 s' e)
      (heard s s1 (advance_send_window-Untouched h s type ack_nr windowsize acks) v)
run-Hears h s (selective base mask len) s' e v =
    let s1 = (selective_ack h s base mask len).0 in
    subst Hears (some-injective s1 s' e) (heard s s1 (selective_ack-Untouched h s base mask len) v)

run-IsEndpoint :
    (h : Host) (s : Socket) (o : Operation) (s' : Socket)
    → IsEndpoint s
    → Young s
    → Allowed s o
    → run h s o ≡ some s'
    → IsEndpoint s'
run-IsEndpoint h s o s' v young ok e =
    let (s2, e2, sender) = run-IsSocket h s o v.sender young ok in
    let hears = run-Hears h s o s' e (v.inbox, v.eight) in
    record {
      sender = subst IsSocket (some-injective s2 s' (sym e2 ∙ e)) sender;
      inbox = hears.0;
      eight = hears.1;
    }

send_ack-IsEndpoint : (h : Host) (s : Socket) → IsEndpoint s → IsEndpoint (send_ack h s).0
unfolding send_ack send_data
send_ack-IsEndpoint h s v = record { sender = v.sender; inbox = v.inbox; eight = v.eight }

read_drained-IsEndpoint : (h : Host) (s : Socket) → IsEndpoint s → IsEndpoint (read_drained h s).0
unfolding read_drained
read_drained-IsEndpoint h s v = elim (Bool-cases (is_state s.conn.state uninitialized)) [
  | inl new ↦ rw new v
  | inr set_up ↦ rw set_up (elim (Bool-cases (ltb s.last_rcv_win (get_rcv_window h s))) [
    | inr same ↦ rw same v
    | inl wider ↦ rw wider (elim (Bool-cases (s.last_rcv_win == 0)) [
      | inl shut ↦ rw shut (send_ack-IsEndpoint h s v)
      | inr some_room ↦ rw some_room v
    ])
  ])
]

-- The sockets that a new one becomes: it sends and receives, its acknowledgements are sent, and its
-- connection may change in any way.
pub data Life (d : Double) : Socket → Type 0 where
  born :
      (s : Socket)
      → s.outbuf ≡ initialize 16
      → s.seq_nr < 2 ^ 16
      → s.cur_window_packets ≡ 0
      → s.cc.cur_window ≡ 0
      → s.recv.inbuf ≡ initialize 16
      → s.recv.reorder_count ≡ 0
      → length s.extensions ≡ 8
      → Life d s
  acts :
      (h : Host) (s s' : Socket) (o : Operation)
      → Life d s
      → Young s
      → Allowed s o
      → run h s o ≡ some s'
      → Life d s'
  hears :
      (h : Host) (s s' : Socket) (bytes : List ℕ) (syn : Bool) (outputs : List Output)
      → Life d s
      → Young s
      → IsBytes bytes
      → header_size ≤ length bytes
      → process_incoming d h s bytes syn ≡ some (s', outputs)
      → Life d s'
  answers : (h : Host) (s : Socket) → Life d s → Life d (send_ack h s).0
  is_read : (h : Host) (s : Socket) → Life d s → Life d (read_drained h s).0
  changes : (s : Socket) (conn : Connection) → Life d s → Life d (record s { conn = conn })

Life-sound : {d : Double} {s : Socket} → Life d s → IsEndpoint s
Life-sound {d} (born s buffer word none_out none_flying inbuf none_waits eight) = record {
  sender = start-IsSocket s buffer word none_out none_flying;
  inbox = record {
    bits = 4;
    ring = rw inbuf (initialize_lem 4 0 (omega arith) (omega arith)).0;
    small = omega arith;
    counted = omega (arith, none_waits);
  };
  eight = eight;
}
Life-sound {d} (acts h s s' o life young ok e) =
    run-IsEndpoint h s o s' (Life-sound life) young ok e
Life-sound {d} (hears h s s' bytes syn outputs life young ok long e) =
    let (s2, outputs2, e2, v) =
      process_incoming-IsEndpoint d h s bytes syn (Life-sound life) young ok long in
    subst (λ (r : Socket × List Output). IsEndpoint r.0)
      (some-injective (s2, outputs2) (s', outputs) (sym e2 ∙ e)) v
Life-sound {d} (answers h s life) = send_ack-IsEndpoint h s (Life-sound life)
Life-sound {d} (is_read h s life) = read_drained-IsEndpoint h s (Life-sound life)
Life-sound {d} (changes s conn life) =
    let v = Life-sound life in record { sender = v.sender; inbox = v.inbox; eight = v.eight }

pub Life-IsEndpoint :
    (d : Double) (s : Socket) → Life d s → IsEndpoint s × (check_invariant s ≡ true)
unfolding check_invariant
Life-IsEndpoint d s life = let v = Life-sound life in (v, (==_iff _ _).1 v.sender.1.balance)
