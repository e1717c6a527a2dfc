-- ===== src/Wire/Tests.antt =====
-- A header on the wire, and the theorems of the wire format at concrete packets.
use libutp.Base.{ℕ, ◌%◌, ◌^◌, ◌<◌, ◌≡◌, refl, arith, List, [], ◌∷◌, ◌++◌, some, length, All, take}
use libutp.Wire.{
  PacketFormatV1, header_at, bytes_of, header_size, version, type, set_version, set_type,
}
use libutp.Wire.{utp_version}
use libutp.Wire.VerType.{ver_type_lem}
use libutp.Wire.RoundTrip.{IsHeader, header_at-bytes_of, bytes_of-header_at}

-- A SYN of version 1.
abbrev syn : PacketFormatV1
syn = record {
  ver_type = 0x41;
  ext = 0;
  connid = 0x1234;
  tv_usec = 0x0102_0304;
  reply_micro = 0;
  windowsize = 0x0010_0000;
  seq_nr = 0xffff;
  ack_nr = 0x0100;
}

abbrev syn_bytes : List ℕ
syn_bytes =
    0x41
    ∷ 0
    ∷ 0x12
    ∷ 0x34
    ∷ 1
    ∷ 2
    ∷ 3
    ∷ 4
    ∷ 0
    ∷ 0
    ∷ (0 ∷ 0 ∷ 0 ∷ 0x10 ∷ 0 ∷ 0 ∷ 0xff ∷ 0xff ∷ 1 ∷ 0 ∷ [])

syn_run : (bytes_of syn ≡ syn_bytes) × (type syn ≡ 4) × (utp_version syn ≡ 1)
unfolding bytes_of type utp_version version
syn_run = (refl, refl, refl)

syn-IsHeader : IsHeader syn
syn-IsHeader = omega arith

header_at-bytes_of_example :
    (header_at (bytes_of syn ++ (7 ∷ [])) ≡ some syn)
    × (length (bytes_of syn) ≡ header_size)
    × All (λ b. b < 2 ^ 8) (bytes_of syn)
header_at-bytes_of_example = header_at-bytes_of syn (7 ∷ []) syn-IsHeader

bytes_of-header_at_example :
    (h : PacketFormatV1) × (header_at syn_bytes ≡ some h)
    × IsHeader h
    × (bytes_of h ≡ take header_size syn_bytes)
bytes_of-header_at_example = bytes_of-header_at syn_bytes (omega arith) (omega arith)

ver_type_lem_example :
    (version (set_version syn 0x23) ≡ 0x23 % 16)
    × (type (set_version syn 0x23) ≡ type syn)
    × (type (set_type syn 0x23) ≡ 0x23 % 16)
    × (version (set_type syn 0x23) ≡ version syn)
ver_type_lem_example = ver_type_lem syn 0x23 (omega arith) (omega arith)
