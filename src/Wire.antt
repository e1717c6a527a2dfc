-- ===== src/Wire.antt =====
-- src/utp/wire_format.hpp and src/utp/endian.hpp: the packet header and its bytes on the wire.
-- A byte is a number below 256. A `big_endian<T>` is stored as its bytes, the highest first.
pub mod VerType
pub mod RoundTrip
pub mod Buckets
mod Tests
use libutp.Base.{ℕ, ◌+◌, ◌*◌, ◌/◌, ◌%◌, ◌^◌, ◌<◌, List, [], ◌∷◌, ◌++◌, Option, some, none}
use libutp.Base.{u8, bit_and, bit_or, get_elem?, ◌>>=◌, leb, ltb, ◌&&◌, if◌then◌else◌}

-- `enum PacketType`
abbrev pub st_data : ℕ
st_data = 0

abbrev pub st_fin : ℕ
st_fin = 1

abbrev pub st_state : ℕ
st_state = 2

abbrev pub st_reset : ℕ
st_reset = 3

abbrev pub st_syn : ℕ
st_syn = 4

abbrev pub st_num_states : ℕ
st_num_states = 5

abbrev pub header_size : ℕ
header_size = 20

pub record PacketFormatV1 : Type 0 where
  pub ver_type : ℕ
  pub ext : ℕ
  pub connid : ℕ
  pub tv_usec : ℕ
  pub reply_micro : ℕ
  pub windowsize : ℕ
  pub seq_nr : ℕ
  pub ack_nr : ℕ

unfoldable pub version : PacketFormatV1 → ℕ
version h = bit_and h.ver_type 0xf

unfoldable pub type : PacketFormatV1 → ℕ
type h = h.ver_type / 2 ^ 4

unfoldable pub set_version : PacketFormatV1 → ℕ → PacketFormatV1
set_version h v = record h { ver_type = u8 (bit_or (bit_and h.ver_type 0xf0) (bit_and v 0xf)) }

unfoldable pub set_type : PacketFormatV1 → ℕ → PacketFormatV1
set_type h t = record h { ver_type = u8 (bit_or (bit_and h.ver_type 0x0f) (t * 2 ^ 4)) }

-- `big_endian<uint16_t>` and `big_endian<uint32_t>`: stored, and read back.
unfoldable pub big16 : ℕ → List ℕ
big16 v = v / 2 ^ 8 ∷ v % 2 ^ 8 ∷ []

unfoldable pub big32 : ℕ → List ℕ
big32 v = v / 2 ^ 24 ∷ v / 2 ^ 16 % 2 ^ 8 ∷ v / 2 ^ 8 % 2 ^ 8 ∷ v % 2 ^ 8 ∷ []

-- A read at an offset is `none` if it goes past the end.
unfoldable pub read16 : List ℕ → ℕ → Option ℕ
read16 bytes i = do a ← get_elem? bytes i; b ← get_elem? bytes (i + 1); some (a * 2 ^ 8 + b)

unfoldable pub read32 : List ℕ → ℕ → Option ℕ
unfolding read16
read32 bytes i = do a ← read16 bytes i; b ← read16 bytes (i + 2); some (a * 2 ^ 16 + b)

-- The packed layout of `PacketFormatV1`.
unfoldable pub bytes_of : PacketFormatV1 → List ℕ
unfolding big16 big32
bytes_of h =
    h.ver_type
    ∷ h.ext
    ∷ (big16 h.connid
        ++ (big32 h.tv_usec
            ++ (big32 h.reply_micro ++ (big32 h.windowsize ++ (big16 h.seq_nr ++ big16 h.ack_nr)))))

-- The cast of a buffer to `PacketFormatV1*`, with every field read.
unfoldable pub header_at : List ℕ → Option PacketFormatV1
unfolding read16 read32
header_at bytes = do
  ver_type ← get_elem? bytes 0
  ext ← get_elem? bytes 1
  connid ← read16 bytes 2
  tv_usec ← read32 bytes 4
  reply_micro ← read32 bytes 8
  windowsize ← read32 bytes 12
  seq_nr ← read16 bytes 16
  ack_nr ← read16 bytes 18
  some (record {
    ver_type = ver_type;
    ext = ext;
    connid = connid;
    tv_usec = tv_usec;
    reply_micro = reply_micro;
    windowsize = windowsize;
    seq_nr = seq_nr;
    ack_nr = ack_nr;
  })

-- utp_process.cpp, `UTP_Version`.
unfoldable pub utp_version : PacketFormatV1 → ℕ
utp_version h = if ltb (type h) st_num_states && ltb h.ext 3 then version h else 0

-- `enum PacketSizeBucket`
pub data PacketSizeBucket : Type 0 where
  empty small mid big huge : PacketSizeBucket

unfoldable pub packet_size_from_bucket : PacketSizeBucket → ℕ
packet_size_from_bucket empty = 23
packet_size_from_bucket small = 373
packet_size_from_bucket mid = 723
packet_size_from_bucket big = 1400
packet_size_from_bucket huge = 0

unfoldable pub packet_size_bucket : ℕ → PacketSizeBucket
packet_size_bucket len =
    if leb len (packet_size_from_bucket empty)
    then empty
    else if leb len (packet_size_from_bucket small)
    then small
    else if leb len (packet_size_from_bucket mid)
    then mid
    else if leb len (packet_size_from_bucket big)
    then big
    else huge
