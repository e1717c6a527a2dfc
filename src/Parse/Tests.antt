-- ===== src/Parse/Tests.antt =====
-- Runs of the parser, and its theorems at concrete packets.
use libutp.Base.{
  ◌++◌, ◌≡◌, refl, arith, List, [], ◌∷◌, ℕ, none, some, inl, inr, length, replicate, drop, ◌+◌,
  take,
}
use libutp.Wire.{PacketFormatV1, bytes_of, header_at, header_size, type}
use libutp.Wire.RoundTrip.{IsHeader}
use libutp.Parse.{Outcome, parsed, parse_packet, walk, round, take_extension, packet_of}
use libutp.Parse.Bounds.{IsSafe, parse_packet-IsSafe}
use libutp.Parse.RoundTrip.{parse_packet-chain}
use libutp.Parse.Chain.{Extension, IsChain, IsExtension, first_kind, chain, last_selack, last_bits}

abbrev state_header : PacketFormatV1
state_header = record {
  ver_type = 0x21;
  ext = 2;
  connid = 700;
  tv_usec = 123456;
  reply_micro = 70000;
  windowsize = 1048576;
  seq_nr = 17;
  ack_nr = 65535;
}

-- Extension bits, then a selective acknowledgement.
abbrev two_extensions : List Extension
two_extensions =
    record { kind = 2; content = replicate 8 1 }
    ∷ record { kind = 1; content = 5 ∷ 0 ∷ 0 ∷ 128 ∷ [] }
    ∷ []

abbrev with_payload : List ℕ
unfolding bytes_of chain first_kind
with_payload = bytes_of state_header ++ (chain two_extensions ++ (7 ∷ 8 ∷ []))

abbrev no_bits : List ℕ
no_bits = replicate 8 0

state_header-IsHeader : IsHeader state_header
state_header-IsHeader = omega arith

two_extensions-IsChain : IsChain two_extensions
unfolding IsChain IsExtension
two_extensions-IsChain = ((omega arith, inr refl), ((omega arith, inl (omega arith)), tt))

parse_run :
    parse_packet with_payload no_bits
    ≡ parsed
        (record {
          payload = 36;
          end = 38;
          selack = some 32;
          seq_nr = 17;
          ack_nr = 65535;
          type = 2;
          timestamp = 123456;
          reply_micro = 70000;
          windowsize = 1048576;
        })
        (replicate 8 1)
unfolding parse_packet walk round take_extension packet_of header_at bytes_of chain type first_kind
parse_run = refl

-- An extension that claims a byte more than the packet has.
cut_run : parse_packet (take 35 with_payload) no_bits ≡ Outcome.rejected (replicate 8 1)
unfolding parse_packet walk round take_extension packet_of header_at bytes_of chain type first_kind
cut_run = refl

parse_packet-IsSafe_example : IsSafe with_payload (parse_packet with_payload no_bits)
unfolding bytes_of chain first_kind
parse_packet-IsSafe_example =
    parse_packet-IsSafe with_payload no_bits (omega arith) (omega arith) refl

parse_packet-chain_example :
    let bytes = bytes_of state_header ++ (chain two_extensions ++ (7 ∷ 8 ∷ [])) in
    let behind = header_size + length (chain two_extensions) in
    (parse_packet bytes no_bits
      ≡ parsed
          (record {
            payload = behind;
            end = length bytes;
            selack = last_selack two_extensions header_size none;
            seq_nr = 17;
            ack_nr = 65535;
            type = type state_header;
            timestamp = 123456;
            reply_micro = 70000;
            windowsize = 1048576;
          })
          (last_bits two_extensions no_bits))
    × (drop behind bytes ≡ 7 ∷ 8 ∷ [])
unfolding type first_kind
parse_packet-chain_example =
    parse_packet-chain state_header two_extensions (7 ∷ 8 ∷ []) no_bits state_header-IsHeader
      (omega arith) refl two_extensions-IsChain
