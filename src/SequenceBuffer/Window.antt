-- ===== src/SequenceBuffer/Window.antt =====
-- The ring seen as a map from the sequence numbers of a window to packets.
use libutp.Base.{
  ℕ, ◌+◌, ◌%◌, ◌^◌, ◌≤◌, ◌<◌, ◌≡◌, ◌≢◌, ◌*◌, ◌⊎◌, refl, suc, sym, arith, Option, none, some,
}
use libutp.Base.{◌==◌, if◌then◌else◌, length-replicate, mod-ne_of_window, get_or-replicate}
use libutp.Base.{
  u64, sub64, mod-pow-pow, ltb, lt→ltb, ltb-false, ltb→lt, ==-false, ap, ◌∙◌, Bool-cases, inl, inr,
  ==_iff, ==-ne,
}
use native.Mathlib.Nat.{mod-eq_of_lt, pow-suc}
use native.Mathlib.Decide.{dec_lt}
use libutp.SequenceBuffer.{SequenceBuffer, get, put, grow, ensure_size, initialize, resized}
use libutp.SequenceBuffer.{doublings, first_size}
use libutp.SequenceBuffer.Ring.{IsRing, get_lem, get-put, two-le-pow}
use libutp.SequenceBuffer.Grow.{Widened, resized-IsRing, resized-Widened, next_size_lem, pow-le}
use libutp.SequenceBuffer.Grow.{ring_mask, round_count}

places_apart :
    (base k i j : ℕ) → i < 2 ^ k → j < 2 ^ k → i ≢ j → (base + i) % 2 ^ k ≢ (base + j) % 2 ^ k
places_apart base k i j hi hj ne = elim (dec_lt i j) [
  | yes lt ↦ mod-ne_of_window base i j (2 ^ k) lt (omega arith)
  | no ge ↦ λ e. mod-ne_of_window base j i (2 ^ k) (omega arith) (omega arith) (sym e)
]

-- Two places of a window agree in their low bits only if they are the same place.
pub window_slots :
    (base k i j : ℕ)
    → k ≤ 63
    → i < 2 ^ k
    → j < 2 ^ k
    → (u64 (base + i) % 2 ^ k == u64 (base + j) % 2 ^ k) ≡ (i == j)
window_slots base k i j le hi hj =
    rw (mod-pow-pow (base + i) k 64 (omega arith), mod-pow-pow (base + j) k 64 (omega arith))
      (elim (Bool-cases (i == j)) [
        | inl same ↦ rw same ((==_iff _ _).1 (ap (λ t. (base + t) % 2 ^ k) ((==_iff i j).0 same)))
        | inr apart ↦ rw apart (==-false _ _ (places_apart base k i j hi hj (==-ne i j apart)))
      ])

module _ {ℓ} {T : Type ℓ} where
  -- In a ring of 2 ^ k slots and over a window of 2 ^ k sequence numbers, whatever the base, `put`
  -- changes the element at the place that it writes and at no other.
  pub get-put_window :
      {k : ℕ} {b : SequenceBuffer T} (base i j : ℕ) (x : Option T)
      → IsRing k b
      → i < 2 ^ k
      → j < 2 ^ k
      → get (put b (u64 (base + i)) x) (u64 (base + j))
        ≡ (if i == j then x else get b (u64 (base + j)))
  get-put_window {k = k} base i j x v hi hj =
      rw (get-put v x (u64 (base + i)) (u64 (base + j)), window_slots base k i j v.fits hi hj)

  -- `initialize` to a power of two gives a ring in which every sequence number is free.
  pub initialize_lem :
      (k seq : ℕ)
      → 0 < k
      → k ≤ 63
      → IsRing k (initialize {T = T} (2 ^ k)) × (get (initialize {T = T} (2 ^ k)) seq ≡ none)
  unfolding initialize
  initialize_lem k seq pos le =
      (ring, get_lem ring seq ∙ get_or-replicate (2 ^ k) (seq % 2 ^ k) none)
    where
      ring : IsRing k (initialize {T = T} (2 ^ k))
      ring =
          unfold initialize in
          record {
            some_bits = pos;
            fits = le;
            mask_eq = ring_mask k le;
            slots = length-replicate _ _;
          }

  first_size_lem : {k : ℕ} {b : SequenceBuffer T} → IsRing k b → first_size b ≡ 2 ^ k
  unfolding first_size
  first_size_lem {k} {b} v =
      rw (round_count v, whole, ==-false (2 ^ k) 0 (omega (arith, two-le-pow k v.some_bits)))
    where
      whole : u64 (2 ^ k) ≡ 2 ^ k
      whole = mod-eq_of_lt (omega (arith, v.fits, pow-le k 63 v.fits))

  spare :
      {k : ℕ} {b : SequenceBuffer T} {index : ℕ}
      → IsRing k b
      → b.mask < index
      → index < 2 ^ 63
      → k < 63
  spare {k} {b} v short hi = elim (dec_lt k 63) [
    | yes lt ↦ lt
    | no top ↦ absurd (omega (arith, round_count v, pow-le 63 k (omega arith)))
  ]

  grow_lem :
      {k : ℕ} {b : SequenceBuffer T} (item index : ℕ)
      → IsRing k b
      → k < 63
      → index < 2 ^ 63
      → (m : ℕ) × (b' : SequenceBuffer T) × (grow b item index ≡ some b')
        × IsRing m b'
        × (k < m)
        × (index < 2 ^ m)
        × ((m ≡ suc k) ⊎ (2 ^ m ≤ 2 * index))
        × Widened (sub64 item index) k m b b'
  unfolding grow
  grow_lem {k} {b} item index v lt hi =
      let (m, e, above, le, covers, first) = next_size_lem doublings k index lt (omega arith) hi in
      (
        m,
        resized b item index (2 ^ m),
        rw (first_size_lem v, e, grow),
        resized-IsRing v item index m above le,
        above,
        covers,
        first,
        resized-Widened v item index m above le,
      )

  no_further :
      {k m : ℕ} {b : SequenceBuffer T} {index : ℕ}
      → IsRing k b
      → b.mask < index
      → (m ≡ suc k) ⊎ (2 ^ m ≤ 2 * index)
      → 2 ^ m ≤ 2 * index
  no_further {k} v short (inl next) = rw next (omega (arith, pow-suc 2 k, round_count v))
  no_further v short (inr small) = small

  -- Of a ring and an index below 2 ^ 63, `ensure_size` ends, and leaves a ring that has room for
  -- the index and is no larger than the old one or twice the index. Over the window that starts at `item - index`, it holds what the old ring held at
  -- the old ring's places, and nothing at the places that are new.
  pub ensure_size_lem :
      {k : ℕ} {b : SequenceBuffer T} (item index : ℕ)
      → IsRing k b
      → index < 2 ^ 63
      → (m : ℕ) × (b' : SequenceBuffer T) × (ensure_size b item index ≡ some b')
        × IsRing m b'
        × (k ≤ m)
        × (index < 2 ^ m)
        × ((m ≡ k) ⊎ (2 ^ m ≤ 2 * index))
        × Widened (sub64 item index) k m b b'
  unfolding ensure_size
  ensure_size_lem {k} {b} item index v hi = elim (Bool-cases (ltb b.mask index)) [
    | inr roomy ↦ (
      k,
      b,
      rw roomy,
      v,
      omega arith,
      omega (arith, ltb-false _ _ roomy, round_count v),
      inl refl,
      λ j h. rw (lt→ltb j _ h),
    )
    | inl short ↦
        let (m, b', e, ring, above, covers, first, widened) =
          grow_lem item index v (spare v (ltb→lt _ _ short) hi) hi in
        (
          m,
          b',
          rw short e,
          ring,
          omega arith,
          covers,
          inr (no_further v (ltb→lt _ _ short) first),
          widened,
        )
  ]
