-- ===== src/Wire/VerType.antt =====
-- The two halves of the first byte.
use libutp.Base.{ℕ, ◌+◌, ◌*◌, ◌/◌, ◌%◌, ◌^◌, ◌<◌, ◌≡◌, arith}
use libutp.Base.{lowest_digits, bit_and, bit_and_mask, bit_or_fields, bit_or_fields_right, u8}
use libutp.Wire.{PacketFormatV1, version, type, set_version, set_type}

-- The mask of the high half, by four digits that are zero.
high_half : (x : ℕ) → x < 256 → bit_and x 0xf0 ≡ x / 16 * 16
high_half x h = omega (
  arith,
  (lowest_digits x 0xf0).0,
  (lowest_digits (x / 2) 0x78).0,
  (lowest_digits (x / 2 / 2) 0x3c).0,
  (lowest_digits (x / 2 / 2 / 2) 0x1e).0,
  bit_and_mask 4 (x / 2 / 2 / 2 / 2),
)

-- Each setter writes its half of the byte, cut to four bits, and keeps the other half.
pub ver_type_lem :
    (h : PacketFormatV1) (v : ℕ)
    → h.ver_type < 2 ^ 8
    → v < 2 ^ 8
    → (version (set_version h v) ≡ v % 16)
      × (type (set_version h v) ≡ type h)
      × (type (set_type h v) ≡ v % 16)
      × (version (set_type h v) ≡ version h)
unfolding version type set_version set_type
ver_type_lem h v hv hb =
    rw
      (
        high_half h.ver_type hv,
        bit_and_mask 4 v,
        bit_and_mask 4 h.ver_type,
        bit_or_fields 4 (h.ver_type / 16) (v % 16) (omega arith),
        bit_or_fields_right 4 v (h.ver_type % 16) (omega arith),
        bit_and_mask 4 (u8 (h.ver_type / 16 * 16 + v % 16)),
        bit_and_mask 4 (u8 (v * 16 + h.ver_type % 16)),
      )
      (omega arith)
