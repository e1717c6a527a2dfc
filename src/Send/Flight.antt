-- ===== src/Send/Flight.antt =====
-- The sum of the bytes in flight over the window, and what a write to one slot does to it.
use libutp.Base.{
  ℕ, zero, suc, ◌+◌, ◌-◌, ◌%◌, ◌^◌, ◌≤◌, ◌<◌, ◌≡◌, ◌≢◌, refl, sym, ap, inl, inr, Option, arith,
}
use libutp.Base.{
  u16, sub64, ◌==◌, if◌then◌else◌, Bool-cases, ==_iff, ==-ne, ==-false, mod-pow-pow, mod-ne,
}
use native.Mathlib.Decide.{dec_lt, ℕ_discrete}
use libutp.SequenceBuffer.{SequenceBuffer, get, put}
use libutp.SequenceBuffer.Ring.{IsRing, get_lem, get-put, index_lem}
use libutp.Send.{OutgoingPacket, in_flight, outstanding}

module _ {ℓ} {T : Type ℓ} {k : ℕ} {b : SequenceBuffer T} (v : IsRing k b) where
  -- A slot is found by the low bits.
  pub get_same : (i j : ℕ) → i % 2 ^ k ≡ j % 2 ^ k → get b i ≡ get b j
  get_same i j e = rw (get_lem v i, get_lem v j, e) refl

  pub put_same : (i j : ℕ) (x : Option T) → i % 2 ^ k ≡ j % 2 ^ k → put b i x ≡ put b j x
  unfolding put
  put_same i j x e = rw (index_lem v i, index_lem v j, e) refl

-- In a ring of at most 2 ^ 16 slots sequence numbers of 16 bits are enough.
pub low_bits : (i j k : ℕ) → k ≤ 16 → u16 i ≡ u16 j → i % 2 ^ k ≡ j % 2 ^ k
low_bits i j k le e = rw (← mod-pow-pow i k 16 le, ← mod-pow-pow j k 16 le, e) refl

before_apart :
    (seq k i j : ℕ)
    → k ≤ 16
    → j < 2 ^ k
    → 2 ^ k ≤ 2 ^ 16
    → i < j
    → sub64 seq (suc i) % 2 ^ k ≢ sub64 seq (suc j) % 2 ^ k
before_apart seq k i j le hj small lt =
    rw
      (
        mod-pow-pow (seq + 2 ^ 64 - suc i) k 64 (omega arith),
        mod-pow-pow (seq + 2 ^ 64 - suc j) k 64 (omega arith),
        ← split,
      )
      (mod-ne (seq + 2 ^ 64 - suc j) (j - i) (2 ^ k) (omega arith) (omega arith))
  where
    split : seq + 2 ^ 64 - suc j + (j - i) ≡ seq + 2 ^ 64 - suc i
    split = omega arith

-- Two of the last 2 ^ k numbers before `seq` share a slot only if they are the same.
pub before_slots :
    (seq k i j : ℕ)
    → k ≤ 16
    → 2 ^ k ≤ 2 ^ 16
    → i < 2 ^ k
    → j < 2 ^ k
    → (sub64 seq (suc i) % 2 ^ k == sub64 seq (suc j) % 2 ^ k) ≡ (i == j)
before_slots seq k i j le small hi hj = elim (Bool-cases (i == j)) [
  | inl same ↦ rw same ((==_iff _ _).1 (ap (λ t. sub64 seq (suc t) % 2 ^ k) ((==_iff i j).0 same)))
  | inr apart ↦ rw apart (
      ==-false _ _ (elim (dec_lt i j) [
        | yes lt ↦ before_apart seq k i j le hj small lt
        | no ge ↦ λ e. before_apart seq k j i le hi small (omega (arith, ==-ne i j apart)) (sym e)
      ]))
]

module _ {k : ℕ} {b : SequenceBuffer OutgoingPacket} (v : IsRing k b) (le : k ≤ 16)
    (small : 2 ^ k ≤ 2 ^ 16) (seq j : ℕ) (hj : j < 2 ^ k) (x : Option OutgoingPacket) where
  slot_after :
      (i : ℕ)
      → i < 2 ^ k
      → get (put b (sub64 seq (suc j)) x) (sub64 seq (suc i))
        ≡ (if j == i then x else get b (sub64 seq (suc i)))
  slot_after i hi =
      rw
        (get-put v x (sub64 seq (suc j)) (sub64 seq (suc i)), before_slots seq k j i le small hj hi)
        refl

  outstanding-put_before :
      (n : ℕ) → n ≤ j → outstanding (put b (sub64 seq (suc j)) x) seq n ≡ outstanding b seq n
  unfolding outstanding
  outstanding-put_before zero h = refl
  outstanding-put_before (suc n) h =
      rw
        (
          outstanding-put_before n (omega arith),
          slot_after n (omega arith),
          ==-false j n (omega arith),
        )
        refl

  -- A packet of the window that is replaced changes the sum by its own bytes.
  pub outstanding-put :
      (n : ℕ)
      → j < n
      → n ≤ 2 ^ k
      → outstanding (put b (sub64 seq (suc j)) x) seq n + in_flight (get b (sub64 seq (suc j)))
        ≡ outstanding b seq n + in_flight x
  unfolding outstanding
  outstanding-put zero h hn = absurd (omega arith)
  outstanding-put (suc n) h hn = elim (ℕ_discrete j n) [
    | yes last ↦
        let here = slot_after n (omega arith) in
        let same = (==_iff j n).1 last in
        rw (outstanding-put_before n (omega arith), here, same, last) (omega arith)
    | no earlier ↦
        let rest = outstanding-put n (omega arith) (omega arith) in
        rw (slot_after n (omega arith), ==-false j n earlier) (omega (arith, rest))
  ]
