-- ===== src/Send/Eack.antt =====
-- The bitmap of an acknowledgement, read back bit by bit as `selective_ack` reads it.
use libutp.Base.{
  ℕ, zero, suc, ◌+◌, ◌*◌, ◌/◌, ◌%◌, ◌^◌, ◌≤◌, ◌<◌, ◌≡◌, ◌&&◌, refl, sym, ap, arith, true, false,
  Bool, min, List,
}
use libutp.Base.{u8, ltb, ◌==◌, if◌then◌else◌, get_or, lt→ltb}
use native.Mathlib.Nat.{pow-suc, mul_assoc, zero-div, div-div-eq-div-mul}
use libutp.SequenceBuffer.{SequenceBuffer, get, size}
use libutp.Send.{Socket}
use libutp.Send.Acks.{bit_set}
use libutp.Send.Feedback.{occupied, eack_bits, eack_bytes, eack_mask}

halving : (m i : ℕ) → m / 2 ^ suc i ≡ m / 2 / 2 ^ i
halving m i = rw (div-div-eq-div-mul m 2 (2 ^ i)) (ap (λ t. m / t) (omega (arith, pow-suc 2 i)))

ltb-suc : (i n : ℕ) → ltb (suc i) (suc n) ≡ ltb i n
ltb-suc i n = ground arith

module _ (b : SequenceBuffer (List ℕ)) where
  digit : ℕ → ℕ
  digit seq = if occupied (get b seq) then 1 else 0

  digit-small : (seq : ℕ) → digit seq ≤ 1
  unfolding digit
  digit-small seq = ground arith

  eack_bits-shift :
      (ack_nr n : ℕ)
      → eack_bits b ack_nr (suc n) ≡ digit (ack_nr + 0 + 2) + 2 * eack_bits b (ack_nr + 1) n
  unfolding eack_bits digit
  eack_bits-shift ack_nr zero = ground arith
  eack_bits-shift ack_nr (suc n) =
      let rest = eack_bits-shift ack_nr n in
      let same : ack_nr + suc n + 2 ≡ ack_nr + 1 + n + 2 = omega arith in
      rw same (twice (occupied (get b (ack_nr + 1 + n + 2))) (unfold digit in rest))
    where
      twice :
          (set : Bool)
          → eack_bits b ack_nr (suc n)
            ≡ (if occupied (get b (ack_nr + 0 + 2)) then 1 else 0) + 2 * eack_bits b (ack_nr + 1) n
          → eack_bits b ack_nr (suc n) + (if set then 2 ^ suc n else 0)
            ≡ (if occupied (get b (ack_nr + 0 + 2)) then 1 else 0)
              + 2 * (eack_bits b (ack_nr + 1) n + (if set then 2 ^ n else 0))
      twice true e = omega (arith, e, pow-suc 2 n)
      twice false e = omega (arith, e)

  -- Bit `i` of the word is whether the packet `i + 2` after `ack_nr` waits.
  bit_of :
      (ack_nr n i : ℕ)
      → eack_bits b ack_nr n / 2 ^ i % 2 ≡ (if ltb i n then digit (ack_nr + i + 2) else 0)
  bit_of ack_nr zero i = unfold eack_bits in rw (zero-div (2 ^ i)) (nothing i)
    where
      nothing : (i : ℕ) → 0 % 2 ≡ (if ltb i 0 then digit (ack_nr + i + 2) else 0)
      nothing i = ground arith
  bit_of ack_nr (suc n) zero =
      rw (lt→ltb 0 (suc n) (omega arith))
        (omega (arith, eack_bits-shift ack_nr n, digit-small (ack_nr + 0 + 2)))
  bit_of ack_nr (suc n) (suc i) =
      let half : eack_bits b ack_nr (suc n) / 2 ≡ eack_bits b (ack_nr + 1) n =
        omega (arith, eack_bits-shift ack_nr n, digit-small (ack_nr + 0 + 2)) in
      let same : ack_nr + 1 + i + 2 ≡ ack_nr + suc i + 2 = omega arith in
      rw (halving (eack_bits b ack_nr (suc n)) i, half, ltb-suc i n, ← same)
        (bit_of (ack_nr + 1) n i)

two_pow_add : (a r : ℕ) → 2 ^ a * 2 ^ r ≡ 2 ^ (r + a)
two_pow_add a zero = omega (arith, ap (λ t. 2 ^ t) {x = 0 + a} {y = a} (omega arith))
two_pow_add a (suc r) =
    let next : suc r + a ≡ suc (r + a) = omega arith in
    rw (next, pow-suc 2 r, pow-suc 2 (r + a), ← two_pow_add a r) (sym (mul_assoc (2 ^ a) (2 ^ r) 2))

-- A bit of a byte is a bit of the word.
byte_bit : (x r : ℕ) → r < 8 → u8 x / 2 ^ r % 2 ≡ x / 2 ^ r % 2
byte_bit x zero h = omega arith
byte_bit x (suc zero) h = omega arith
byte_bit x (suc (suc zero)) h = omega arith
byte_bit x (suc (suc (suc zero))) h = omega arith
byte_bit x (suc (suc (suc (suc zero)))) h = omega arith
byte_bit x (suc (suc (suc (suc (suc zero))))) h = omega arith
byte_bit x (suc (suc (suc (suc (suc (suc zero)))))) h = omega arith
byte_bit x (suc (suc (suc (suc (suc (suc (suc zero))))))) h = omega arith
byte_bit x (suc (suc (suc (suc (suc (suc (suc (suc r)))))))) h = absurd (omega arith)

byte_at : (m j : ℕ) → j < 4 → get_or (eack_bytes m) j 0 ≡ u8 (m / 2 ^ (8 * j))
unfolding eack_bytes
byte_at m zero h = omega arith
byte_at m (suc zero) h = refl
byte_at m (suc (suc zero)) h = refl
byte_at m (suc (suc (suc zero))) h = refl
byte_at m (suc (suc (suc (suc j)))) h = absurd (omega arith)

word_bit : (m i : ℕ) → i < 32 → bit_set (eack_bytes m) i ≡ (m / 2 ^ i % 2 == 1)
unfolding bit_set
word_bit m i h =
    let whole : i % 8 + 8 * (i / 8) ≡ i = omega arith in
    rw
      (
        byte_at m (i / 8) (omega arith),
        byte_bit (m / 2 ^ (8 * (i / 8))) (i % 8) (omega arith),
        div-div-eq-div-mul m (2 ^ (8 * (i / 8))) (2 ^ (i % 8)),
        two_pow_add (8 * (i / 8)) (i % 8),
        whole,
      )
      refl

-- Of the bitmap that an acknowledgement carries, the peer's `selective_ack` finds bit `i` set exactly if
-- the packet `i + 2` after the acknowledged one waits in the receive buffer, for the first 30 packets or
-- as many as the buffer has slots; the other bits of the four bytes are not set.
pub eack_mask-bit_set :
    (s : Socket) (i : ℕ)
    → i < 32
    → bit_set (eack_mask s) i
      ≡ (ltb i (min 30 (size s.recv.inbuf)) && occupied (get s.recv.inbuf (s.recv.ack_nr + i + 2)))
unfolding eack_mask digit
eack_mask-bit_set s i h =
    let n = min 30 (size s.recv.inbuf) in
    rw
      (word_bit (eack_bits s.recv.inbuf s.recv.ack_nr n) i h, bit_of s.recv.inbuf s.recv.ack_nr n i)
      (read_back (ltb i n) (occupied (get s.recv.inbuf (s.recv.ack_nr + i + 2))))
  where
    read_back :
        (inside set : Bool)
        → ((if inside then (if set then 1 else 0) else 0) == 1) ≡ (inside && set)
    read_back inside set = ground arith
