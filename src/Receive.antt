-- ===== src/Receive.antt =====
-- src/utp_process.cpp, `deliver_data`: packets that are in order are read at once, with those that
-- have waited for them; others wait in the sequence buffer. What the socket does outside of its
-- receive state is a list of effects. A callback does not call back into the socket.
pub mod Slots
pub mod Count
pub mod Stream
pub mod Draining
pub mod Arrival
pub mod Delivery
pub mod Session
pub mod Trace
mod Tests
use libutp.Base.{
  ℕ, zero, suc, ◌+◌, ◌-◌, ◌*◌, Bool, true, false, not, ◌&&◌, min, List, [], ◌∷◌, ◌++◌,
}
use libutp.Base.{
  Option, none, some, ◌>>=◌, u16, u32, u64, sub16, length, ltb, leb, ◌==◌, if◌then◌else◌,
}
use libutp.Wire.{st_fin, st_state}
use libutp.SequenceBuffer.{SequenceBuffer, get, put, take, ensure_size}

abbrev pub reorder_buffer_max_size : ℕ
reorder_buffer_max_size = 1024

-- The receive side of a socket, `ReceiveState`, but for the sizes of the application's buffer.
pub record ReceiveState : Type 0 where
  pub ack_nr : ℕ
  pub reorder_count : ℕ
  pub eof_pkt : ℕ
  pub got_fin : Bool
  pub got_fin_reached : Bool
  pub read_shutdown : Bool
  pub inbuf : SequenceBuffer (List ℕ)

-- `on_read` and `on_eof` are callbacks; `set_rto_timeout` is the controller's; `send_ack` has the
-- number that it acknowledges.
pub data Effect : Type 0 where
  on_read : List ℕ → Effect
  on_eof : Effect
  set_rto_timeout : ℕ → Effect
  send_ack : ℕ → Effect
  schedule_ack : Effect

-- The clock and the timeout that the end of the stream is given.
pub record Timing : Type 0 where
  pub current_ms : ℕ
  pub rto : ℕ

-- `process_incoming`: how far a packet is ahead of the one that is awaited.
unfoldable pub relative_seq : ReceiveState → ℕ → ℕ
relative_seq r seq_nr = sub16 (sub16 seq_nr r.ack_nr) 1

-- The callback for a payload.
unfoldable pub read : ReceiveState → List ℕ → List Effect
read r payload = if ltb 0 (length payload) && not r.read_shutdown then on_read payload ∷ [] else []

-- The loop's first `if`: the end of the stream, when it is reached.
unfoldable pub reach_fin : Timing → ReceiveState → ReceiveState × List Effect
reach_fin t r =
    if not r.got_fin_reached && r.got_fin && r.eof_pkt == r.ack_nr
    then (
      record r { got_fin_reached = true; reorder_count = 0 },
      set_rto_timeout (u64 (t.current_ms + min (u32 (t.rto * 3)) 60))
          ∷ on_eof
          ∷ send_ack r.ack_nr
          ∷ [],
    )
    else (r, [])

-- The loop over the packets that waited; `none` means that the fuel ran out.
unfoldable pub drain : Timing → ℕ → ReceiveState → Option (ReceiveState × List Effect)
unfolding reach_fin read
drain t zero r = none
drain t (suc fuel) r =
    let (r1, ended) = reach_fin t r in
    let (pkt, inbuf) = take r1.inbuf (r1.ack_nr + 1) in
    let r2 = record r1 {
      inbuf = inbuf;
      ack_nr = u16 (r1.ack_nr + 1);
      reorder_count = sub16 r1.reorder_count 1;
    } in
    let rest = drain t fuel r2 in
    if r1.reorder_count == 0 then some (r1, ended) else elim pkt [
      | none ↦ some (record r1 { inbuf = inbuf }, ended)
      | some payload ↦ do (r', effects) ← rest; some (r', ended ++ (read r1 payload ++ effects))
    ]

-- A FIN is noted when it first arrives.
unfoldable pub note_fin : ReceiveState → ℕ → ℕ → ReceiveState
note_fin r type seq_nr =
    if type == st_fin && not r.got_fin then record r { got_fin = true; eof_pkt = seq_nr } else r

-- The packet that is awaited. Every round takes a packet that waited, so their count is enough.
unfoldable pub deliver_in_order :
    Timing → ReceiveState → List ℕ → Option (ReceiveState × List Effect)
unfolding drain read
deliver_in_order t r payload = do
  let next = record r { ack_nr = u16 (r.ack_nr + 1) }
  (r', effects) ← drain t (next.reorder_count + 1) next
  some (r', read r payload ++ (effects ++ schedule_ack ∷ []))

-- A packet that is ahead is put into a buffer that has room for it, unless it is there.
unfoldable pub file :
    ReceiveState → SequenceBuffer (List ℕ) → ℕ → List ℕ → Option (ReceiveState × List Effect)
file r inbuf seq_nr payload = elim (get inbuf seq_nr) [
  | some duplicate ↦ some (record r { inbuf = inbuf }, [])
  | none ↦ some (
    record r { inbuf = put inbuf seq_nr (some payload); reorder_count = u16 (r.reorder_count + 1) },
    schedule_ack ∷ [],
  )
]

-- A packet that is ahead.
unfoldable pub keep_ahead : ReceiveState → ℕ → ℕ → List ℕ → Option (ReceiveState × List Effect)
unfolding file
keep_ahead r seq_nr seqnr payload =
    let past_eof = ltb (sub16 (sub16 r.eof_pkt r.ack_nr) 1) seqnr in
    if r.got_fin && past_eof
    then some (r, [])
    else if ltb 0x3ff seqnr
    then some (r, [])
    else (do inbuf ← ensure_size r.inbuf (seq_nr + 1) (seqnr + 1); file r inbuf seq_nr payload)

unfoldable pub deliver_data :
    Timing → ReceiveState → ℕ → ℕ → ℕ → List ℕ → Option (ReceiveState × List Effect)
unfolding note_fin deliver_in_order keep_ahead
deliver_data t r type seq_nr seqnr payload =
    let noted = note_fin r type seq_nr in
    if seqnr == 0 then deliver_in_order t noted payload else keep_ahead noted seq_nr seqnr payload

-- `process_incoming` of a connected socket, as far as it receives: an old or far packet is dropped,
-- an old one that is more than an acknowledgement with an acknowledgement of its own.
unfoldable pub receive :
    Timing → ReceiveState → ℕ → ℕ → List ℕ → Option (ReceiveState × List Effect)
unfolding relative_seq deliver_data
receive t r type seq_nr payload =
    let seqnr = relative_seq r seq_nr in
    if leb reorder_buffer_max_size seqnr
    then some (
      r,
      if leb (0x1_0000 - reorder_buffer_max_size) seqnr && not (type == st_state)
          then schedule_ack ∷ []
          else [],
    )
    else if type == st_state
    then some (r, [])
    else deliver_data t r type seq_nr seqnr payload
