-- ===== src/Parse.antt =====
-- src/utp_process.cpp, `parse_packet`: the header, and the walk along the chain of extensions.
-- A pointer into the packet is its offset from the packet's first byte, and a read past the end is
-- the outcome `fault`. The casts of lengths to `int` are exact below 2 ^ 31 bytes.
pub mod Inside
pub mod Bounds
pub mod Chain
pub mod RoundTrip
mod Tests
use libutp.Base.{ℕ, zero, suc, ◌+◌, ◌-◌, List, Option, none, some, not, ◌&&◌}
use libutp.Base.{length, get_elem?, take, drop, ltb, leb, ◌==◌, if◌then◌else◌}
use libutp.Wire.{PacketFormatV1, type, st_num_states, header_size, header_at}

pub record ParsedPacket : Type 0 where
  pub payload : ℕ
  pub end : ℕ
  pub selack : Option ℕ
  pub seq_nr : ℕ
  pub ack_nr : ℕ
  pub type : ℕ
  pub timestamp : ℕ
  pub reply_micro : ℕ
  pub windowsize : ℕ

-- The variables of the loop: the extension at `payload`, and the socket's extension bits.
pub record Walk : Type 0 where
  pub extension : ℕ
  pub payload : ℕ
  pub selack : Option ℕ
  pub extensions : List ℕ

-- What one round does: reads past the end, returns false, or goes on.
pub data Round : Type 0 where
  fault : Round
  invalid : Round
  next : Walk → Round

-- The `switch`: what the extension with `len` bytes at `at` leaves.
unfoldable pub take_extension : List ℕ → Walk → ℕ → ℕ → ℕ → Walk
take_extension bytes w at len after = record {
  extension = after;
  payload = at + len;
  selack = if w.extension == 1 then some at else w.selack;
  extensions = if w.extension == 2 then take 8 (drop at bytes) else w.extensions;
}

unfoldable pub round : List ℕ → Walk → Round
round bytes w =
    let at = w.payload + 2 in
    if ltb (length bytes) at then Round.invalid else elim (get_elem? bytes (at - 1)) [
      | none ↦ Round.fault
      | some len ↦
          if ltb (length bytes - at) len
          then Round.invalid
          else if w.extension == 2 && not (len == 8)
          then Round.invalid
          else elim (get_elem? bytes (at - 2)) [
            | none ↦ Round.fault
            | some after ↦ next (take_extension bytes w at len after)
          ]
    ]

-- How the loop ends, with what it leaves in the socket's extension bits; `endless` means that the
-- fuel ran out.
pub data Ending : Type 0 where
  endless : Ending
  fault : Ending
  invalid : List ℕ → Ending
  done : Walk → Ending

unfoldable pub walk : ℕ → List ℕ → Walk → Ending
walk zero bytes w = Ending.endless
walk (suc fuel) bytes w = elim (round bytes w) [
  | Round.fault ↦ Ending.fault
  | Round.invalid ↦ Ending.invalid w.extensions
  | next w' ↦ let rest = walk fuel bytes w' in if w'.extension == 0 then done w' else rest
]

-- What `parse_packet` returns, with the socket's extension bits after it.
pub data Outcome : Type 0 where
  endless : Outcome
  fault : Outcome
  rejected : List ℕ → Outcome
  parsed : ParsedPacket → List ℕ → Outcome

unfoldable pub packet_of : PacketFormatV1 → ℕ → Walk → ParsedPacket
packet_of h end w = record {
  payload = w.payload;
  end = end;
  selack = w.selack;
  seq_nr = h.seq_nr;
  ack_nr = h.ack_nr;
  type = type h;
  timestamp = h.tv_usec;
  reply_micro = h.reply_micro;
  windowsize = h.windowsize;
}

abbrev pub start : PacketFormatV1 → List ℕ → Walk
start h extensions = record {
  extension = h.ext;
  payload = header_size;
  selack = none;
  extensions = extensions;
}

-- Every round takes two bytes, so as many rounds as the packet has bytes are enough.
unfoldable pub parse_packet : List ℕ → List ℕ → Outcome
parse_packet bytes extensions = elim (header_at bytes) [
  | none ↦ Outcome.fault
  | some h ↦
      if leb st_num_states (type h)
      then rejected extensions
      else if ltb (length bytes) header_size
      then rejected extensions
      else if h.ext == 0
      then parsed (packet_of h (length bytes) (start h extensions)) extensions
      else elim (walk (length bytes) bytes (start h extensions)) [
        | Ending.endless ↦ Outcome.endless
        | Ending.fault ↦ Outcome.fault
        | Ending.invalid exts ↦ rejected exts
        | done w ↦ parsed (packet_of h (length bytes) w) w.extensions
      ]
]
