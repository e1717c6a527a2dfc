-- ===== src/Receive/Tests.antt =====
-- Runs of the receive path, and its theorems at concrete arrivals.
use libutp.Base.{ℕ, ◌+◌, ◌≡◌, refl, arith, Bool, true, false, List, [], ◌∷◌, some}
use mathlib.Core.Option
use libutp.Wire.{st_data, st_fin}
use libutp.SequenceBuffer.{get, put, take, ensure_size, initialize}
use libutp.Receive.{
  ReceiveState, Effect, Timing, schedule_ack, on_read, on_eof, set_rto_timeout, send_ack, receive,
  relative_seq, deliver_data, note_fin, deliver_in_order, keep_ahead, file, drain, reach_fin, read,
}
use libutp.Receive.Slots.{wire}
use libutp.Receive.Count.{mark}
use libutp.Receive.Stream.{stream, IsReceiver}
use libutp.Receive.Session.{Delivers, receive-Delivers}
use libutp.Receive.Trace.{new_receiver, Arrivals, Arrivals-IsReceiver, new_receiver-IsReceiver}

abbrev timing : Timing
timing = record { current_ms = 5000; rto = 1000 }

-- A stream of two bytes a packet, whose second packet has sequence number 0.
abbrev letters : ℕ → List ℕ
letters q = q ∷ (q + 100) ∷ []

abbrev wrapping_start : ℕ
wrapping_start = 65534

ahead_run :
    Option.map {B = ℕ × ℕ × List Effect}
      (λ p. (p.0.ack_nr, p.0.reorder_count, p.1))
      (receive timing (new_receiver wrapping_start) st_data (wire wrapping_start 1) (letters 1))
    ≡ some (65534, 1, schedule_ack ∷ [])
unfolding receive relative_seq deliver_data note_fin keep_ahead file ensure_size get put initialize
ahead_run = refl

-- The FIN is awaited: it is read, and the end of the stream is reported and acknowledged.
fin_run :
    Option.map {B = ℕ × Bool × List Effect}
      (λ p. (p.0.ack_nr, p.0.got_fin_reached, p.1))
      (receive timing (new_receiver wrapping_start) st_fin (wire wrapping_start 0) (letters 0))
    ≡ some (
      65535,
      true,
      on_read (0 ∷ 100 ∷ []) ∷ set_rto_timeout 5060 ∷ on_eof ∷ send_ack 65535 ∷ schedule_ack ∷ [],
    )
unfolding receive relative_seq deliver_data note_fin deliver_in_order drain reach_fin read take
    initialize
fin_run = refl

receive-Delivers_example :
    Delivers wrapping_start letters timing (λ q. false) 0 (new_receiver wrapping_start) 1
receive-Delivers_example =
    receive-Delivers wrapping_start letters timing (λ q. false) 0 1 (new_receiver wrapping_start)
      (new_receiver-IsReceiver wrapping_start letters) refl (omega arith) (omega arith)

-- The second packet arrives, then the first.
abbrev swapped :
    (r : ReceiveState) × (bytes : List ℕ) × Arrivals wrapping_start letters timing
      (mark 0 (mark 1 (λ q. false)))
      r
      bytes
unfolding receive relative_seq deliver_data note_fin keep_ahead file ensure_size get put initialize
    deliver_in_order drain reach_fin read take
swapped = (
  _,
  _,
  Arrivals.arrives 0 0
      (Arrivals.arrives 1 0 Arrivals.new refl (λ q h. absurd (omega arith)) (omega arith)
        (omega arith) refl)
      refl (λ q h. absurd (omega arith)) (omega arith) (omega arith) refl,
)

Arrivals-IsReceiver_example :
    (n : ℕ) × IsReceiver wrapping_start letters (mark 0 (mark 1 (λ q. false))) n swapped.0
    × (mark 0 (mark 1 (λ q. false)) n ≡ false)
    × (swapped.1 ≡ stream letters 0 n)
Arrivals-IsReceiver_example = Arrivals-IsReceiver wrapping_start letters timing swapped.2
