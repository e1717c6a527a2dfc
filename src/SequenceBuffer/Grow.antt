-- ===== src/SequenceBuffer/Grow.antt =====
-- `grow` and `ensure_size`: the new ring holds the old window, at the same sequence numbers.
use libutp.Base.{
  ℕ, zero, suc, ◌+◌, ◌*◌, ◌-◌, ◌%◌, ◌^◌, ◌≤◌, ◌<◌, ◌≡◌, ◌≢◌, refl, arith, Option, none,
}
use libutp.Base.{sym, true, if◌then◌else◌, bit_and, bit_and_mask, get_or, length, set}
use libutp.Base.{length-set, get_or-set_self, get_or-set_ne, length-replicate, mod-ne_of_window}
use libutp.Base.{
  replicate, u64, sub64, mod-pow-pow, get_or-replicate, ◌⊎◌, inl, inr, some, List, ltb, lt→ltb,
  ltb→lt, ltb-false, leb, leb-false, leb→le, Bool-cases, ◌∙◌,
}
use native.Mathlib.Nat.{pow-le-pow_right, mod-lt, pow-suc, mod-eq_of_lt}
use native.Mathlib.Decide.{dec_lt}
use libutp.SequenceBuffer.{SequenceBuffer, get, migrate, next_size, resized}
use libutp.SequenceBuffer.Ring.{IsRing, two-le-pow, get_lem, mask-ne-zero}

pub pow-le : (k m : ℕ) → k ≤ m → 2 ^ k ≤ 2 ^ m
pow-le k m h = pow-le-pow_right {n = 2} (omega arith) h

doubled-pow : (k : ℕ) → k < 63 → u64 (2 ^ k * 2) ≡ 2 ^ suc k
doubled-pow k h = rw (← pow-suc 2 k) (mod-eq_of_lt (omega (arith, pow-le (suc k) 63 h)))

-- An index that is not yet covered leaves room for another doubling.
room : (k index : ℕ) → k < 63 → leb (2 ^ suc k) index ≡ true → index < 2 ^ 63 → suc k < 63
room k index h more hi = elim (dec_lt (suc k) 63) [
  | yes below ↦ below
  | no top ↦
      let e : suc k ≡ 63 = omega arith in absurd (omega (arith, hi, leb→le _ _ (rw e at more)))
]

-- With enough fuel the doubling loop ends at a power of two above `index`, the first after 2 ^ k.
pub next_size_lem :
    (fuel k index : ℕ)
    → k < 63
    → 63 < fuel + k
    → index < 2 ^ 63
    → (m : ℕ) × (next_size fuel (2 ^ k) index ≡ some (2 ^ m))
      × (k < m)
      × (m ≤ 63)
      × (index < 2 ^ m)
      × ((m ≡ suc k) ⊎ (2 ^ m ≤ 2 * index))
unfolding next_size
next_size_lem zero k index hk hf hi = absurd (omega arith)
next_size_lem (suc fuel) k index hk hf hi = elim (Bool-cases (leb (2 ^ suc k) index)) [
  | inr done ↦ (
    suc k,
    rw (doubled-pow k hk, done),
    omega arith,
    omega arith,
    leb-false (2 ^ suc k) index done,
    inl refl,
  )
  | inl more ↦
      let (m, e, lt, le, above, first) =
        next_size_lem fuel (suc k) index (room k index hk more hi) (omega arith) hi in
      (m, rw (doubled-pow k hk, more) e, omega arith, le, above, inr (needed m first more))
]
  where
    needed :
        (m : ℕ)
        → (m ≡ suc (suc k)) ⊎ (2 ^ m ≤ 2 * index)
        → leb (2 ^ suc k) index ≡ true
        → 2 ^ m ≤ 2 * index
    needed m (inl next) more = rw next (omega (arith, pow-suc 2 (suc k), leb→le _ _ more))
    needed m (inr small) more = small

module _ (base : ℕ) where
  -- The slot of the i-th element of the window at `base`, in a ring of 2 ^ bits slots.
  abbrev at : ℕ → ℕ → ℕ
  at bits i = (base + i) % 2 ^ bits

  index_at : (bits i : ℕ) → bits ≤ 64 → bit_and (u64 (base + i)) (2 ^ bits - 1) ≡ at bits i
  index_at bits i h = rw bit_and_mask (mod-pow-pow (base + i) bits 64 h)

module _ {ℓ} {T : Type ℓ} (base k m : ℕ) (hk : k ≤ m) (hm : m ≤ 64) where
  abbrev move : ℕ → ℕ → List (Option T) → List (Option T) → List (Option T)
  move rounds i old new = migrate rounds i base (2 ^ k - 1) (2 ^ m - 1) old new

  move-suc :
      (rounds i : ℕ) (old new : List (Option T))
      → move (suc rounds) i old new
        ≡ move rounds
            (i + 1)
            (set old (at base k i) none)
            (set new (at base m i) (get_or old (at base k i) none))
  unfolding migrate
  move-suc rounds i old new = rw (index_at base k i (omega arith), index_at base m i hm)

  length-move :
      (rounds i : ℕ) (old new : List (Option T)) → length (move rounds i old new) ≡ length new
  unfolding migrate
  length-move zero i old new = refl
  length-move (suc rounds) i old new = length-move rounds (i + 1) _ _ ∙ length-set new _ _

  -- A slot of the new buffer that no round writes keeps its value.
  move-outside :
      (rounds i j : ℕ) (old new : List (Option T))
      → i + rounds ≤ 2 ^ m
      → (j < i) ⊎ (i + rounds ≤ j)
      → j < 2 ^ m
      → get_or (move rounds i old new) (at base m j) none ≡ get_or new (at base m j) none
  move-outside zero i j old new h out hj = unfold migrate in refl
  move-outside (suc rounds) i j old new h out hj = rw (move-suc rounds i old new) (
      move-outside rounds (i + 1) j _ _ (omega arith) (omega arith) hj
      ∙ get_or-set_ne new (at base m i) (at base m j) _ none (apart out))
    where
      apart : (j < i) ⊎ (i + suc rounds ≤ j) → at base m i ≢ at base m j
      apart (inl lt) e = mod-ne_of_window base j i (2 ^ m) lt (omega arith) (sym e)
      apart (inr ge) e = mod-ne_of_window base i j (2 ^ m) (omega arith) (omega arith) e

  move-inside :
      (rounds i j : ℕ) (old new : List (Option T))
      → i + rounds ≤ 2 ^ k
      → length new ≡ 2 ^ m
      → i ≤ j
      → j < i + rounds
      → get_or (move rounds i old new) (at base m j) none ≡ get_or old (at base k j) none
  move-inside zero i j old new h hl lo hi = absurd (omega arith)
  move-inside (suc rounds) i j old new h hl lo hi =
      rw (move-suc rounds i old new) (elim (dec_lt i j) [
        | yes later ↦
            move-inside rounds (i + 1) j _ _ (omega arith) (length-set new _ _ ∙ hl) (omega arith)
              (omega arith)
            ∙ get_or-set_ne old (at base k i) (at base k j) none none
                (mod-ne_of_window base i j (2 ^ k) later (omega arith))
        | no now ↦
            let e : j ≡ i = omega arith in
            rw e (
              move-outside rounds (i + 1) i _ _ (omega (arith, pow-le k m hk)) (inl (omega arith))
                (omega (arith, pow-le k m hk))
              ∙ get_or-set_self new (at base m i) _ none
                  (rw hl (mod-lt (base + i) (omega (arith, pow-le k m hk)))))
      ])

pub ring_mask : (m : ℕ) → m ≤ 63 → sub64 (2 ^ m) 1 ≡ 2 ^ m - 1
ring_mask m h = omega (arith, pow-le m 63 h, pow-le 0 m (omega arith))

-- What a resized ring holds over the window that starts at `base`.
abbrev pub Widened {ℓ} : {T : Type ℓ} → ℕ → ℕ → ℕ → SequenceBuffer T → SequenceBuffer T → Type ℓ
Widened base k m old new =
    (j : ℕ)
    → j < 2 ^ m
    → get new (u64 (base + j)) ≡ (if ltb j (2 ^ k) then get old (u64 (base + j)) else none)

module _ {ℓ} {T : Type ℓ} {k : ℕ} {b : SequenceBuffer T} (v : IsRing k b) where
  pub round_count : b.mask + 1 ≡ 2 ^ k
  round_count = omega (arith, v.mask_eq, two-le-pow k v.some_bits)

  module _ (item index m : ℕ) (lt : k < m) (le : m ≤ 63) where
    below : k ≤ m
    below = omega arith

    wide : m ≤ 64
    wide = omega arith

    moved_buf :
        (resized b item index (2 ^ m)).buf
        ≡ migrate
            (2 ^ k)
            0
            (sub64 item index)
            (2 ^ k - 1)
            (2 ^ m - 1)
            b.buf
            (replicate (2 ^ m) none)
    unfolding resized
    moved_buf =
        rw (lt→ltb 0 b.mask (omega (arith, mask-ne-zero v)), ring_mask m le, round_count)
          (simp v.mask_eq)

    pub resized-IsRing : IsRing m (resized b item index (2 ^ m))
    resized-IsRing = record {
      some_bits = omega arith;
      fits = le;
      mask_eq = unfold resized in ring_mask m le;
      slots =
          rw moved_buf
            (length-move (sub64 item index) k m below wide (2 ^ k) 0 _ _ ∙ length-replicate _ _);
    }

    pub resized-Widened : Widened (sub64 item index) k m b (resized b item index (2 ^ m))
    resized-Widened j h =
        rw
          (
            get_lem resized-IsRing (u64 (sub64 item index + j)),
            moved_buf,
            mod-pow-pow (sub64 item index + j) m 64 wide,
          )
          (elim (Bool-cases (ltb j (2 ^ k))) [
            | inl inside ↦
                rw
                  (
                    inside,
                    get_lem v (u64 (sub64 item index + j)),
                    mod-pow-pow (sub64 item index + j) k 64 (omega arith),
                  )
                  (move-inside (sub64 item index) k m below wide (2 ^ k) 0 j _ _ (omega arith)
                    (length-replicate _ _) (omega arith) (omega (arith, ltb→lt _ _ inside)))
            | inr beyond ↦ rw beyond (
                move-outside (sub64 item index) k m below wide (2 ^ k) 0 j _ _
                  (omega (arith, pow-le k m below)) (inr (omega (arith, ltb-false _ _ beyond))) h
                ∙ get_or-replicate (2 ^ m) _ none)
          ])
