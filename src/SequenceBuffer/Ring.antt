-- ===== src/SequenceBuffer/Ring.antt =====
-- The ring's invariant, and what `get`, `put` and `take` do to the slots.
use libutp.Base.{ℕ, ◌-◌, ◌%◌, ◌^◌, ◌≤◌, ◌<◌, ◌≡◌, ◌≢◌, refl, arith, Option, none}
use libutp.Base.{
  Bool-cases, ==_iff, ==-ne, false, ◌==◌, if◌then◌else◌, bit_and, bit_and_mask, get_or, length, set,
}
use libutp.Base.{length-set, get_or-set_self, get_or-set_ne}
use libutp.Base.{inl, inr}
use native.Mathlib.Nat.{pow-le-pow_right, mod-lt}
use libutp.SequenceBuffer.{SequenceBuffer, get, put, take}

-- The buffer has 2 ^ k slots and the mask selects k bits.
pub record IsRing {ℓ} {T : Type ℓ} (k : ℕ) (b : SequenceBuffer T) : Type 0 where
  pub some_bits : 0 < k
  pub fits : k ≤ 63
  pub mask_eq : b.mask ≡ 2 ^ k - 1
  pub slots : length b.buf ≡ 2 ^ k

pub two-le-pow : (k : ℕ) → 0 < k → 2 ≤ 2 ^ k
two-le-pow k h = pow-le-pow_right {n = 2} (omega arith) {i = 1} h

module _ {ℓ} {T : Type ℓ} {k : ℕ} {b : SequenceBuffer T} (v : IsRing k b) where
  pub index_lem : (seq : ℕ) → bit_and seq b.mask ≡ seq % 2 ^ k
  index_lem seq = rw v.mask_eq (bit_and_mask k seq)

  pub index-lt : (seq : ℕ) → seq % 2 ^ k < length b.buf
  index-lt seq = rw v.slots (mod-lt seq (omega (arith, two-le-pow k v.some_bits)))

  pub mask-ne-zero : b.mask ≢ 0
  mask-ne-zero = omega (arith, two-le-pow k v.some_bits, v.mask_eq)

  pub mask_test : (b.mask == 0) ≡ false
  mask_test = ground (arith, mask-ne-zero)

  pub get_lem : (seq : ℕ) → get b seq ≡ get_or b.buf (seq % 2 ^ k) none
  unfolding get
  get_lem seq = rw (mask_test, index_lem seq)

  pub put-IsRing : (seq : ℕ) (x : Option T) → IsRing k (put b seq x)
  unfolding put
  put-IsRing seq x = record {
    some_bits = v.some_bits;
    fits = v.fits;
    mask_eq = v.mask_eq;
    slots = rw length-set v.slots;
  }

module _ {ℓ} {T : Type ℓ} {k : ℕ} {b : SequenceBuffer T} (v : IsRing k b) where
  pub take-IsRing : (seq : ℕ) → IsRing k (take b seq).1
  unfolding take
  take-IsRing seq = rw (mask_test v) (record {
    some_bits = v.some_bits;
    fits = v.fits;
    mask_eq = v.mask_eq;
    slots = rw length-set v.slots;
  })

  set_slot :
      (x : Option T) (seq other : ℕ)
      → get_or (set b.buf (seq % 2 ^ k) x) (other % 2 ^ k) none
        ≡ (if seq % 2 ^ k == other % 2 ^ k then x else get_or b.buf (other % 2 ^ k) none)
  set_slot x seq other = elim (Bool-cases (seq % 2 ^ k == other % 2 ^ k)) [
    | inl same ↦
        rw (same, ← (==_iff _ _).0 same)
          (get_or-set_self b.buf (seq % 2 ^ k) x none (index-lt v seq))
    | inr apart ↦
        rw apart (get_or-set_ne b.buf (seq % 2 ^ k) (other % 2 ^ k) x none (==-ne _ _ apart))
  ]

  -- In a valid ring of 2 ^ k slots, `get` after `put` finds the new element at every sequence
  -- number that agrees with the written one in its low k bits, and what it found before elsewhere.
  pub get-put :
      (x : Option T) (seq other : ℕ)
      → get (put b seq x) other ≡ (if seq % 2 ^ k == other % 2 ^ k then x else get b other)
  unfolding put
  get-put x seq other =
      rw (get_lem (put-IsRing v seq x) other, get_lem v other, index_lem v seq)
        (set_slot x seq other)

  pub take-eq-put : (seq : ℕ) → take b seq ≡ (get b seq, put b seq none)
  unfolding take get put
  take-eq-put seq = rw (mask_test v)

  -- In a valid ring `take` returns what `get` finds, and empties exactly the slot that it took.
  pub take_lem :
      (seq other : ℕ)
      → ((take b seq).0 ≡ get b seq)
        × (get (take b seq).1 other ≡ (if seq % 2 ^ k == other % 2 ^ k then none else get b other))
  take_lem seq other = rw (take-eq-put seq) (refl, get-put none seq other)
