-- ===== src/Send/Trace.antt =====
-- The operations on a sender with their arguments: each ends and keeps the invariant.
use libutp.Base.{ℕ, ◌+◌, ◌^◌, ◌<◌, ◌≡◌, refl, sym, ap, ◌∙◌, Option, none, some, arith, List}
use libutp.Base.{◌>>=◌, none-some}
use libutp.SequenceBuffer.{get, initialize}
use libutp.SequenceBuffer.Window.{initialize_lem}
use libutp.Send.{OutgoingPacket, Socket, Host, outstanding, flush_packets}
use libutp.Send.Write.{write_outgoing_packet}
use libutp.Send.Acks.{selective_ack}
use libutp.Send.Advance.{advance_send_window}
use libutp.Send.Timeouts.{check_timeouts}
use libutp.Send.Invariant.{IsSender, Sound, small_ring, weaken}
use libutp.Send.Flushing.{flush_packets-Keeps}
use libutp.Send.Acking.{selective_ack-Keeps}
use libutp.Send.Advancing.{advance_send_window-IsSender}
use libutp.Send.Session.{write_outgoing_packet-IsSender}
use libutp.Send.Expiry.{check_timeouts-IsSender}

-- An operation with the arguments that it is given.
pub data Operation : Type 0 where
  flush timeout : Operation
  write : ℕ → ℕ → List (List ℕ) → Operation
  advance : ℕ → ℕ → ℕ → ℕ → Operation
  selective : ℕ → List ℕ → ℕ → Operation

-- The socket after an operation; a write may not end.
unfoldable pub run : Host → Socket → Operation → Option Socket
run h s flush = some (flush_packets h s).0
run h s timeout = some (check_timeouts h s).0
run h s (write payload flags iovec) = do
  (s', _, _) ← write_outgoing_packet h s payload flags iovec
  some s'
run h s (advance type ack_nr windowsize acks) =
    some (advance_send_window h s type ack_nr windowsize acks).0
run h s (selective base mask len) = some (selective_ack h s base mask len).0

-- What the code asserts of a write: there is room for a packet.
abbrev pub Allowed : Socket → Operation → Type 0
Allowed s (write payload flags iovec) = (s.cur_window_packets < 1024) × (payload < 2 ^ 64)
Allowed s _ = 0 < 1

-- No packet has been sent 2 ^ 30 times.
abbrev pub Young : Socket → Type 0
Young s =
    (seq : ℕ) (pkt : OutgoingPacket) → get s.outbuf seq ≡ some pkt → pkt.transmissions < 2 ^ 30

abbrev pub IsSocket : Socket → Type 0
IsSocket s = (k : ℕ) × IsSender k 0 s

-- The budget of transmissions that an operation of a young sender has.
pub renewed : {k : ℕ} (s : Socket) → IsSender k 0 s → Young s → IsSender k (2 ^ 30) s
renewed {k} s v young = record {
  ring = v.ring;
  bits = v.bits;
  word = v.word;
  fits = v.fits;
  packets = λ seq. budget seq (get s.outbuf seq) refl (v.packets seq);
  owned = v.owned;
  balance = v.balance;
}
  where
    budget :
        (seq : ℕ) (o : Option OutgoingPacket) → get s.outbuf seq ≡ o → Sound 0 o → Sound (2 ^ 30) o
    budget seq none e ok = omega arith
    budget seq (some pkt) e ok = (ok.0, omega (arith, young seq pkt e))

-- Of a sender whose packets have not been sent 2 ^ 30 times: every operation that the code allows ends,
-- with the window in a ring that has room for it, nothing in the buffer outside of the window, and the
-- controller's bytes in flight those of the packets that are out.
pub run-IsSocket :
    (h : Host) (s : Socket) (o : Operation)
    → IsSocket s
    → Young s
    → Allowed s o
    → (s' : Socket) × (run h s o ≡ some s') × IsSocket s'
unfolding run
run-IsSocket h s flush (k, v) young ok =
    let kept = flush_packets-Keeps 0 h s (
      weaken (renewed s v young) (s.cur_window_packets + 0)
        (omega (arith, v.fits, small_ring k v.bits))) in
    ((flush_packets h s).0, refl, (k, kept.0))
run-IsSocket h s timeout (k, v) young ok =
    let kept = check_timeouts-IsSender 0 h s (
      weaken (renewed s v young) (s.cur_window_packets + 1)
        (omega (arith, v.fits, small_ring k v.bits))) in
    ((check_timeouts h s).0, refl, (k, kept))
run-IsSocket h s (write payload flags iovec) (k, v) young ok =
    let (k', s', rest, outputs, e, v') =
      write_outgoing_packet-IsSender 0 h s payload flags iovec
        (weaken (renewed s v young) 1024 (omega arith)) ok.0 ok.1 (omega arith) in
    (s', rw e refl, (k', v'))
run-IsSocket h s (advance type ack_nr windowsize acks) (k, v) young ok =
    let kept =
      advance_send_window-IsSender 0 h s type ack_nr windowsize acks
        (weaken (renewed s v young) 2 (omega arith)) in
    ((advance_send_window h s type ack_nr windowsize acks).0, refl, (k, kept))
run-IsSocket h s (selective base mask len) (k, v) young ok =
    let kept =
      selective_ack-Keeps 0 h s base mask len (weaken (renewed s v young) 4 (omega arith)) in
    ((selective_ack h s base mask len).0, refl, (k, kept.0))

pub start-IsSocket :
    (s : Socket)
    → s.outbuf ≡ initialize 16
    → s.seq_nr < 2 ^ 16
    → s.cur_window_packets ≡ 0
    → s.cc.cur_window ≡ 0
    → IsSocket s
unfolding outstanding
start-IsSocket s buffer word none_out none_flying =
    let fresh =
      λ (seq : ℕ). initialize_lem {T = OutgoingPacket} 4 seq (omega arith) (omega arith) in
    let free = λ (seq : ℕ). ap (λ b. get b seq) buffer ∙ (fresh seq).1 in
    (
      4,
      record {
        ring = rw buffer (fresh 0).0;
        bits = omega arith;
        word = word;
        fits = omega arith;
        packets = λ seq. rw (free seq) (omega arith);
        owned = λ seq pkt e. absurd (none-some (sym (free seq) ∙ e));
        balance = rw (none_out, none_flying) refl;
      },
    )

-- Nothing has been sent.
pub start-Young : (s : Socket) → s.outbuf ≡ initialize 16 → Young s
start-Young s buffer seq pkt e = absurd (
    none-some (
      sym (
        ap (λ b. get b seq) buffer
        ∙ (initialize_lem {T = OutgoingPacket} 4 seq (omega arith) (omega arith)).1)
      ∙ e))
