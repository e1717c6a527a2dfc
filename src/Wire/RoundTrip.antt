-- ===== src/Wire/RoundTrip.antt =====
-- Headers and their twenty bytes.
use libutp.Base.{ℕ, ◌^◌, ◌<◌, ◌≤◌, ◌≡◌, refl, arith, List, ◌∷◌, ◌++◌, some}
use libutp.Base.{length, All, take}
use libutp.Wire.{PacketFormatV1, bytes_of, header_at, header_size}

-- Every field fits its type.
pub record IsHeader (h : PacketFormatV1) : Type 0 where
  pub ver_type_fits : h.ver_type < 2 ^ 8
  pub ext_fits : h.ext < 2 ^ 8
  pub connid_fits : h.connid < 2 ^ 16
  pub tv_usec_fits : h.tv_usec < 2 ^ 32
  pub reply_micro_fits : h.reply_micro < 2 ^ 32
  pub windowsize_fits : h.windowsize < 2 ^ 32
  pub seq_nr_fits : h.seq_nr < 2 ^ 16
  pub ack_nr_fits : h.ack_nr < 2 ^ 16

-- Reading the bytes of a header, whatever follows them, gives the header back; they are twenty.
pub header_at-bytes_of :
    (h : PacketFormatV1) (rest : List ℕ)
    → IsHeader h
    → (header_at (bytes_of h ++ rest) ≡ some h)
      × (length (bytes_of h) ≡ header_size)
      × All (λ b. b < 2 ^ 8) (bytes_of h)
unfolding header_at bytes_of
header_at-bytes_of h rest v = (ground arith, refl, omega arith)

abbrev pub IsBytes : List ℕ → Type 0
IsBytes = All (λ b. b < 2 ^ 8)

-- Twenty bytes or more hold a header whose fields fit, and its bytes are the first twenty.
pub bytes_of-header_at :
    (bytes : List ℕ)
    → IsBytes bytes
    → header_size ≤ length bytes
    → (h : PacketFormatV1) × (header_at bytes ≡ some h)
      × IsHeader h
      × (bytes_of h ≡ take header_size bytes)
unfolding header_at bytes_of
bytes_of-header_at
      (b0 ∷ b1 ∷ b2 ∷ b3 ∷ b4 ∷ b5 ∷ b6 ∷ b7 ∷ b8 ∷ b9 ∷ b10 ∷ b11 ∷ b12 ∷ b13 ∷ b14 ∷ b15 ∷ b16
        ∷ b17 ∷ b18 ∷ b19 ∷ rest)
      v h =
    (_, refl, omega arith, ground arith)
bytes_of-header_at _ v h = absurd (omega arith)
