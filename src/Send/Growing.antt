-- ===== src/Send/Growing.antt =====
-- The sender's buffer grows and takes a new packet: the window is found again in the larger ring.
use libutp.Base.{
  ℕ, zero, suc, ◌+◌, ◌-◌, ◌%◌, ◌^◌, ◌≤◌, ◌<◌, ◌≡◌, refl, sym, ap, ◌∙◌, inl, inr, none, some, arith,
}
use libutp.Base.{
  u64, sub64, ltb, if◌then◌else◌, Bool-cases, ltb→lt, lt→ltb, ==_iff, ltb-false, none-some,
  mod-pow-pow,
}
use native.Mathlib.Nat.{mod-add-mod, add-mod_right, mod-eq_of_lt, mod-lt}
use libutp.SequenceBuffer.{SequenceBuffer, get}
use libutp.SequenceBuffer.Ring.{IsRing}
use libutp.SequenceBuffer.Grow.{Widened}
use libutp.SequenceBuffer.Window.{window_slots}
use libutp.Send.{OutgoingPacket, outstanding}
use libutp.Send.Flight.{get_same}
use libutp.Send.Invariant.{IsWindow, Place, Sound, small_ring}

-- How far a place is from another, round a ring of `size` slots.
offset : ℕ → ℕ → ℕ → ℕ
offset size start place = if ltb place start then place + size - start else place - start

offset_place :
    (size start place : ℕ)
    → start < size
    → place < size
    → (offset size start place < size) × ((start + offset size start place) % size ≡ place)
unfolding offset
offset_place size start place hs hp = elim (Bool-cases (ltb place start)) [
  | inl round ↦ rw round (
    omega (arith, ltb→lt _ _ round),
    ap (λ t. t % size) {y = place + size} (omega (arith, ltb→lt _ _ round))
        ∙ (add-mod_right place size ∙ mod-eq_of_lt hp),
  )
  | inr ahead ↦ rw ahead (
    omega arith,
    ap (λ t. t % size) {y = place} (omega (arith, ltb-false _ _ ahead)) ∙ mod-eq_of_lt hp,
  )
]

offset_lem : (size base o : ℕ) → 0 < size → (i : ℕ) × (i < size) × ((base + i) % size ≡ o % size)
offset_lem size base o pos =
    let (small, back) =
      offset_place size (base % size) (o % size) (mod-lt base pos) (mod-lt o pos) in
    let i = offset size (base % size) (o % size) in (i, small, sym (mod-add-mod base size i) ∙ back)

outstanding-same :
    (b b' : SequenceBuffer OutgoingPacket) (seq_nr n : ℕ)
    → ((j : ℕ) → j < n → get b' (sub64 seq_nr (suc j)) ≡ get b (sub64 seq_nr (suc j)))
    → outstanding b' seq_nr n ≡ outstanding b seq_nr n
unfolding outstanding
outstanding-same b b' seq_nr zero same = refl
outstanding-same b b' seq_nr (suc n) same =
    rw (outstanding-same b b' seq_nr n (λ j h. same j (omega arith)), same n (omega arith)) refl

-- From the end of the window to its start.
from_start :
    (seq_nr n j : ℕ)
    → seq_nr < 2 ^ 16
    → j < n
    → n < 2 ^ 16
    → sub64 seq_nr (suc j) ≡ u64 (sub64 seq_nr n + (n - suc j))
from_start seq_nr n j word lt small = omega arith

module _ {k k' m : ℕ} {b b' : SequenceBuffer OutgoingPacket} {seq_nr n bytes : ℕ}
    (v : IsWindow k m b seq_nr n bytes) (ring : IsRing k' b') (le : k ≤ k') (bits : k' ≤ 10)
    (room : n < 2 ^ k') (w : Widened (sub64 seq_nr n) k k' b b') where
  base : ℕ
  base = sub64 seq_nr n

  at_offset :
      (o : ℕ)
      → (i : ℕ) × (i < 2 ^ k')
        × (o % 2 ^ k' ≡ u64 (base + i) % 2 ^ k')
        × (get b' o ≡ (if ltb i (2 ^ k) then get b (u64 (base + i)) else none))
  unfolding base
  at_offset o =
      let (i, hi, e) = offset_lem (2 ^ k') base o (omega arith) in
      let same : o % 2 ^ k' ≡ u64 (base + i) % 2 ^ k' =
        sym e ∙ sym (mod-pow-pow (base + i) k' 64 (omega arith)) in
      (i, hi, same, get_same ring o (u64 (base + i)) same ∙ w i hi)

  grown-owned : (o : ℕ) (pkt : OutgoingPacket) → get b' o ≡ some pkt → Place k' seq_nr n o
  unfolding base
  grown-owned o pkt e =
      let (i, hi, same, here) = at_offset o in
      elim (Bool-cases (ltb i (2 ^ k))) [
        | inr new ↦ absurd (none-some (sym (rw new at here) ∙ e))
        | inl old ↦
            let found : get b (u64 (sub64 seq_nr n + i)) ≡ some pkt = sym (rw old at here) ∙ e in
            let (j, hj, slot) = v.owned (u64 (sub64 seq_nr n + i)) pkt found in
            (j, hj, same ∙ ap (λ t. t % 2 ^ k') (landing i j (ltb→lt _ _ old) hj slot))
      ]
    where
      landing :
          (i j : ℕ)
          → i < 2 ^ k
          → j < n
          → u64 (sub64 seq_nr n + i) % 2 ^ k ≡ sub64 seq_nr (suc j) % 2 ^ k
          → u64 (sub64 seq_nr n + i) ≡ sub64 seq_nr (suc j)
      landing i j hi hj slot =
          let back = from_start seq_nr n j v.word hj (omega (arith, v.fits, small_ring k v.bits)) in
          let same =
            window_slots (sub64 seq_nr n) k i (n - suc j) (omega (arith, v.bits)) hi
              (omega (arith, v.fits)) in
          let e =
            (==_iff i (n - suc j)).0
              (sym same ∙ (==_iff _ _).1 (slot ∙ ap (λ t. t % 2 ^ k) back)) in
          ap (λ t. u64 (sub64 seq_nr n + t)) e ∙ sym back

  grown-packets : (o : ℕ) → Sound m (get b' o)
  unfolding base
  grown-packets o =
      let (i, hi, same, here) = at_offset o in
      rw here (elim (Bool-cases (ltb i (2 ^ k))) [
        | inr new ↦ rw new (omega arith)
        | inl old ↦ rw old (v.packets (u64 (sub64 seq_nr n + i)))
      ])

  grown-outstanding : outstanding b' seq_nr n ≡ outstanding b seq_nr n
  grown-outstanding = outstanding-same b b' seq_nr n kept
    where
      kept : (j : ℕ) → j < n → get b' (sub64 seq_nr (suc j)) ≡ get b (sub64 seq_nr (suc j))
      kept j hj =
          let small : n < 2 ^ 16 = omega (arith, v.fits, small_ring k v.bits) in
          rw
            (
              from_start seq_nr n j v.word hj small,
              w (n - suc j) (omega arith),
              lt→ltb (n - suc j) (2 ^ k) (omega (arith, v.fits)),
            )
            refl

  pub grown-IsWindow : IsWindow k' m b' seq_nr n bytes
  grown-IsWindow = record {
    ring = ring;
    bits = bits;
    word = v.word;
    fits = omega arith;
    packets = grown-packets;
    owned = grown-owned;
    balance = rw grown-outstanding v.balance;
  }
