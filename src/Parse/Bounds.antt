-- ===== src/Parse/Bounds.antt =====
-- What `parse_packet` returns lies inside the packet.
use libutp.Base.{
  ℕ, ◌≤◌, ◌<◌, ◌≡◌, refl, arith, List, some, inl, inr, ◌==◌, leb, ltb, leb-false, Bool-cases, tests,
  length, false,
}
use libutp.Wire.{PacketFormatV1, type, st_num_states, header_size, header_at}
use libutp.Wire.RoundTrip.{IsBytes, bytes_of-header_at}
use libutp.Parse.{
  ParsedPacket, Walk, Ending, Outcome, done, rejected, parsed, packet_of, start, parse_packet,
}
use libutp.Parse.Inside.{SelackInside, IsInside, EndsInside, walk_lem}

-- What a packet that is not refused says, and where its parts lie.
pub record IsParsed (bytes : List ℕ) (pp : ParsedPacket) : Type 0 where
  pub header : PacketFormatV1
  pub header_eq : header_at bytes ≡ some header
  pub seq_nr_eq : pp.seq_nr ≡ header.seq_nr
  pub ack_nr_eq : pp.ack_nr ≡ header.ack_nr
  pub type_eq : pp.type ≡ type header
  pub type_lt : pp.type < st_num_states
  pub timestamp_eq : pp.timestamp ≡ header.tv_usec
  pub reply_micro_eq : pp.reply_micro ≡ header.reply_micro
  pub windowsize_eq : pp.windowsize ≡ header.windowsize
  pub end_eq : pp.end ≡ length bytes
  pub after_header : header_size ≤ pp.payload
  pub in_packet : pp.payload ≤ pp.end
  pub selack_inside : SelackInside bytes pp.payload pp.selack

unfoldable pub IsSafe : List ℕ → Outcome → Type 0
IsSafe bytes Outcome.endless = ⊥
IsSafe bytes Outcome.fault = ⊥
IsSafe bytes (rejected extensions) = length extensions ≡ 8
IsSafe bytes (parsed pp extensions) = IsParsed bytes pp × (length extensions ≡ 8)

packet_of-IsParsed :
    (bytes : List ℕ) (h : PacketFormatV1) (w : Walk)
    → header_at bytes ≡ some h
    → leb st_num_states (type h) ≡ false
    → IsInside bytes w
    → IsParsed bytes (packet_of h (length bytes) w)
unfolding packet_of
packet_of-IsParsed bytes h w e kind v = record {
  header = h;
  header_eq = e;
  seq_nr_eq = refl;
  ack_nr_eq = refl;
  type_eq = refl;
  type_lt = leb-false _ _ kind;
  timestamp_eq = refl;
  reply_micro_eq = refl;
  windowsize_eq = refl;
  end_eq = refl;
  after_header = v.after_header;
  in_packet = v.in_packet;
  selack_inside = v.selack_inside;
}

-- Of a packet of at least a header's bytes, `parse_packet` reads no byte past the end, and it ends.
-- Either it returns false, or the packet's type is known, the fields are the header's, and the
-- payload and the bitmap of a selective acknowledgement, with the byte before it, which holds its
-- length, lie within the packet. The socket keeps eight bytes of extension bits either way.
pub parse_packet-IsSafe :
    (bytes extensions : List ℕ)
    → IsBytes bytes
    → header_size ≤ length bytes
    → length extensions ≡ 8
    → IsSafe bytes (parse_packet bytes extensions)
unfolding parse_packet IsSafe EndsInside SelackInside
parse_packet-IsSafe bytes extensions v long eight =
    let (h, e, fields, same) = bytes_of-header_at bytes v long in
    rw (e, IsSafe)
      (elim (Bool-cases (leb st_num_states (type h))) [
        | inl unknown ↦ rw (unknown, IsSafe) eight
        | inr known ↦
            rw (known, IsSafe)
              (elim (Bool-cases (ltb (length bytes) header_size)) [
                | inl short ↦ absurd (omega (tests, long, short))
                | inr whole ↦
                    rw (whole, IsSafe)
                      (elim (Bool-cases (h.ext == 0)) [
                        | inl plain ↦
                            rw (plain, IsSafe)
                              (packet_of-IsParsed bytes h _ e known (started h), eight)
                        | inr extended ↦ rw extended (
                            go h e known _ (
                              walk_lem (length bytes) bytes (start h extensions) (omega arith)
                                (started h)))
                      ])
              ])
      ])
  where
    started : (h : PacketFormatV1) → IsInside bytes (start h extensions)
    started h = record {
      after_header = omega arith;
      in_packet = long;
      selack_inside = tt;
      eight_bits = eight;
    }

    go :
        (h : PacketFormatV1)
        → header_at bytes ≡ some h
        → leb st_num_states (type h) ≡ false
        → (r : Ending) → EndsInside bytes r
        → IsSafe bytes (elim r [
          | Ending.endless ↦ Outcome.endless
          | Ending.fault ↦ Outcome.fault
          | Ending.invalid exts ↦ rejected exts
          | done w ↦ parsed (packet_of h (length bytes) w) w.extensions
        ])
    go h e known Ending.endless inside = inside
    go h e known Ending.fault inside = inside
    go h e known (Ending.invalid exts) inside = inside
    go h e known (done w) inside = (packet_of-IsParsed bytes h w e known inside, inside.eight_bits)
