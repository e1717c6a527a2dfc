-- ===== src/Receive/Slots.antt =====
-- The sequence buffer seen by the packets' places in the stream. The first packet of the stream is
-- number 0, and its sequence number comes after `start`.
use libutp.Base.{
  ℕ, ◌+◌, ◌*◌, ◌%◌, ◌^◌, ◌≤◌, ◌<◌, ◌≡◌, refl, ap, sym, ◌∙◌, arith, inl, inr, ◌⊎◌, ◌==◌,
  if◌then◌else◌, Option, none, some, u64, sub64, mod-pow-pow, get_or, ltb,
}
use native.Mathlib.Decide.{dec_lt}
use native.Mathlib.Nat.{add-mod_right}
use libutp.SequenceBuffer.{SequenceBuffer, get, put, take, ensure_size}
use libutp.SequenceBuffer.Ring.{IsRing, get_lem, get-put, take_lem}
use libutp.SequenceBuffer.Window.{window_slots, ensure_size_lem}
use libutp.SequenceBuffer.Grow.{pow-le}

-- The sequence number of a packet of the stream.
abbrev pub wire : ℕ → ℕ → ℕ
wire start q = (start + 1 + q) % 2 ^ 16

module _ {ℓ} {T : Type ℓ} {k : ℕ} {b : SequenceBuffer T} (v : IsRing k b) (small : k ≤ 16) where
  -- Sequence numbers that agree in 16 bits find the same element.
  pub get-same : (x y : ℕ) → x % 2 ^ 16 ≡ y % 2 ^ 16 → get b x ≡ get b y
  get-same x y e =
      get_lem v x
      ∙ ap (λ i. get_or b.buf i none)
          (sym (mod-pow-pow x k 16 small) ∙ ap (λ i. i % 2 ^ k) e ∙ mod-pow-pow y k 16 small)
      ∙ sym (get_lem v y)

  same_slot :
      (start n i j : ℕ)
      → i < 2 ^ k
      → j < 2 ^ k
      → (wire start (n + i) % 2 ^ k == wire start (n + j) % 2 ^ k) ≡ (i == j)
  same_slot start n i j hi hj =
      rw
        (mod-pow-pow (start + 1 + (n + i)) k 16 small, mod-pow-pow (start + 1 + (n + j)) k 16 small)
        (rw
          (
            assoc i,
            assoc j,
            ← mod-pow-pow (start + 1 + n + i) k 64 (omega arith),
            ← mod-pow-pow (start + 1 + n + j) k 64 (omega arith),
          )
          (window_slots (start + 1 + n) k i j v.fits hi hj))
    where
      assoc : (i : ℕ) → start + 1 + (n + i) ≡ start + 1 + n + i
      assoc i = omega arith

  pub get-put-wire :
      (start n i j : ℕ) (x : Option T)
      → i < 2 ^ k
      → j < 2 ^ k
      → get (put b (wire start (n + i)) x) (wire start (n + j))
        ≡ (if i == j then x else get b (wire start (n + j)))
  get-put-wire start n i j x hi hj =
      rw (get-put v x (wire start (n + i)) (wire start (n + j)), same_slot start n i j hi hj) refl

module _ {ℓ} {T : Type ℓ} {k : ℕ} {b : SequenceBuffer T} (v : IsRing k b) (small : k ≤ 16) where
  -- A whole ring further, the first slot is met again.
  pub get-around : (start n : ℕ) → get b (wire start (n + 2 ^ k)) ≡ get b (wire start (n + 0))
  get-around start n =
      get_lem v (wire start (n + 2 ^ k))
      ∙ ap (λ i. get_or b.buf i none)
          (mod-pow-pow (start + 1 + (n + 2 ^ k)) k 16 small
            ∙ ap (λ x. x % 2 ^ k) {y = start + 1 + (n + 0) + 2 ^ k} (omega arith)
            ∙ add-mod_right (start + 1 + (n + 0)) (2 ^ k)
            ∙ sym (mod-pow-pow (start + 1 + (n + 0)) k 16 small))
      ∙ sym (get_lem v (wire start (n + 0)))

  -- The packet that the loop takes is the one that is awaited.
  pub take-wire :
      (start n ack : ℕ)
      → ack ≡ (start + n) % 2 ^ 16
      → (take b (ack + 1)).0 ≡ get b (wire start (n + 0))
  take-wire start n ack e =
      (take_lem v (ack + 1) 0).0 ∙ get-same v small (ack + 1) (wire start (n + 0)) (omega arith)

  pub get-take-wire :
      (start n ack j : ℕ)
      → ack ≡ (start + n) % 2 ^ 16
      → j < 2 ^ k
      → get (take b (ack + 1)).1 (wire start (n + j))
        ≡ (if 0 == j then none else get b (wire start (n + j)))
  get-take-wire start n ack j e hj =
      (take_lem v (ack + 1) (wire start (n + j))).1
      ∙ ap (λ t. if t then none else get b (wire start (n + j)))
          (ap (λ x. x == wire start (n + j) % 2 ^ k)
              (sym (mod-pow-pow (ack + 1) k 16 small)
                ∙ ap (λ x. x % 2 ^ k) {y = wire start (n + 0) % 2 ^ 16} (omega arith)
                ∙ mod-pow-pow (wire start (n + 0)) k 16 small)
            ∙ same_slot v small start n 0 j (omega (arith, hj)) hj)

-- The window that the buffer is widened over starts at the packet that is awaited.
same_base :
    (start n d j : ℕ)
    → d < 1024
    → wire start (n + j) % 2 ^ 16 ≡ u64 (sub64 (wire start (n + d) + 1) (d + 1) + j) % 2 ^ 16
same_base start n d j hd = omega arith

pub eleven : (k m index : ℕ) → k ≤ 11 → index ≤ 1024 → (m ≡ k) ⊎ (2 ^ m ≤ 2 * index) → m ≤ 11
eleven k m index le hi (inl same) = omega arith
eleven k m index le hi (inr small) = elim (dec_lt m 12) [
  | yes lt ↦ omega arith
  | no ge ↦ absurd (omega (arith, pow-le 12 m (omega arith)))
]

-- The buffer widened for the packet at `n + d` holds what it held.
pub widened-wire {ℓ} :
    {T : Type ℓ} {k : ℕ} {b : SequenceBuffer T} (start n d : ℕ)
    → IsRing k b
    → k ≤ 11
    → d < 1024
    → (m : ℕ) × (b' : SequenceBuffer T) × (ensure_size b (wire start (n + d) + 1) (d + 1) ≡ some b')
      × IsRing m b'
      × (k ≤ m)
      × (m ≤ 11)
      × (d < 2 ^ m)
      × ((j : ℕ)
          → j < 2 ^ m
          → get b' (wire start (n + j))
            ≡ (if ltb j (2 ^ k) then get b (wire start (n + j)) else none))
widened-wire {k = k} {b} start n d v small hd =
    let (m, b', e, ring, le, covers, first, widened) =
      ensure_size_lem (wire start (n + d) + 1) (d + 1) v (omega arith) in
    let small' : m ≤ 11 = eleven k m (d + 1) small (omega arith) first in
    (
      m,
      b',
      e,
      ring,
      le,
      small',
      omega (arith, covers),
      λ j h.
          get-same ring (omega (arith, small')) _ _ (same_base start n d j hd)
          ∙ widened j h
          ∙ ap (λ x. if ltb j (2 ^ k) then x else none)
              (sym (get-same v (omega arith) _ _ (same_base start n d j hd))),
    )
