-- ===== src/Send/Pushing.antt =====
-- A new packet is put at the end of the window, in a ring that has been given room for it.
use libutp.Base.{
  ℕ, zero, suc, ◌+◌, ◌*◌, ◌%◌, ◌^◌, ◌≤◌, ◌<◌, ◌≡◌, ◌⊎◌, refl, sym, ◌∙◌, inl, inr, some, arith,
}
use libutp.Base.{u16, sub64, ◌==◌, if◌then◌else◌, Bool-cases, ==_iff, ==-false}
use native.Mathlib.Decide.{dec_lt}
use native.Mathlib.Nat.{pow-le-pow_right}
use libutp.SequenceBuffer.{SequenceBuffer, get, put, ensure_size}
use libutp.SequenceBuffer.Ring.{get-put, put-IsRing}
use libutp.SequenceBuffer.Window.{ensure_size_lem}
use libutp.Send.{OutgoingPacket, outstanding, in_flight}
use libutp.Send.Flight.{get_same, low_bits, before_slots}
use libutp.Send.Growing.{grown-IsWindow}
use libutp.Send.Invariant.{IsWindow, Place, Sound, small_ring, packets-write}

-- A ring that was grown for fewer than 1024 packets has at most 1024 slots.
size_bound : (m n : ℕ) → n < 1024 → 2 ^ m ≤ 2 * n → m ≤ 10
size_bound m n small le = elim (dec_lt m 11) [
  | yes lt ↦ omega arith
  | no large ↦
      absurd (omega (arith, pow-le-pow_right {n = 2} (omega arith) {i = 11} {j = m} (omega arith)))
]

-- `ensure_size` of a window that has fewer than 1024 packets gives the same window with room for one
-- packet more.
pub ensure_size-IsWindow :
    {k m : ℕ} {b : SequenceBuffer OutgoingPacket} {seq_nr n bytes : ℕ}
    → IsWindow k m b seq_nr n bytes
    → n < 1024
    → (k' : ℕ) × (b' : SequenceBuffer OutgoingPacket) × (ensure_size b seq_nr n ≡ some b')
      × (n < 2 ^ k')
      × IsWindow k' m b' seq_nr n bytes
ensure_size-IsWindow {k} {m} {b} {seq_nr} {n} v small =
    let (k', b', e, ring, le, room, size, widened) =
      ensure_size_lem seq_nr n v.ring (omega arith) in
    (k', b', e, room, grown-IsWindow v ring le (bits k' size) room widened)
  where
    bits : (k' : ℕ) → (k' ≡ k) ⊎ (2 ^ k' ≤ 2 * n) → k' ≤ 10
    bits k' (inl same) = omega (arith, v.bits)
    bits k' (inr double) = size_bound k' n small double

outstanding-push :
    (b b' : SequenceBuffer OutgoingPacket) (seq_nr seq_nr' n : ℕ) (x : OutgoingPacket)
    → get b' (sub64 seq_nr' 1) ≡ some x
    → ((j : ℕ) → j < n → get b' (sub64 seq_nr' (suc (suc j))) ≡ get b (sub64 seq_nr (suc j)))
    → outstanding b' seq_nr' (suc n) ≡ in_flight (some x) + outstanding b seq_nr n
unfolding outstanding
outstanding-push b b' seq_nr seq_nr' zero x last same = rw last (omega arith)
outstanding-push b b' seq_nr seq_nr' (suc n) x last same =
    let rest = outstanding-push b b' seq_nr seq_nr' n x last (λ j h. same j (omega arith)) in
    rw (same n (omega arith)) (omega (arith, rest))

module _ {k m : ℕ} {b : SequenceBuffer OutgoingPacket} {seq_nr n bytes : ℕ}
    (v : IsWindow k m b seq_nr n bytes) (room : n < 2 ^ k) (x : OutgoingPacket)
    (ok : Sound m (some x)) (idle : in_flight (some x) ≡ 0) where
  next : ℕ
  next = u16 (seq_nr + 1)

  last_slot : seq_nr % 2 ^ k ≡ sub64 next 1 % 2 ^ k
  unfolding next
  last_slot =
      low_bits seq_nr (sub64 (u16 (seq_nr + 1)) 1) k (omega (arith, v.bits)) (omega (arith, v.word))

  earlier_slot : (j : ℕ) → j < n → sub64 next (suc (suc j)) % 2 ^ k ≡ sub64 seq_nr (suc j) % 2 ^ k
  unfolding next
  earlier_slot j hj =
      low_bits (sub64 (u16 (seq_nr + 1)) (suc (suc j))) (sub64 seq_nr (suc j)) k
        (omega (arith, v.bits)) (omega (arith, v.word, v.fits, small_ring k v.bits))

  pushed :
      (o : ℕ)
      → get (put b seq_nr (some x)) o ≡ (if seq_nr % 2 ^ k == o % 2 ^ k then some x else get b o)
  pushed o = get-put v.ring (some x) seq_nr o

  pushed_last : get (put b seq_nr (some x)) (sub64 next 1) ≡ some x
  pushed_last = rw (pushed (sub64 next 1), (==_iff _ _).1 last_slot) refl

  pushed_earlier :
      (j : ℕ)
      → j < n
      → get (put b seq_nr (some x)) (sub64 next (suc (suc j))) ≡ get b (sub64 seq_nr (suc j))
  pushed_earlier j hj =
      rw
        (
          pushed (sub64 next (suc (suc j))),
          last_slot,
          before_slots next k 0 (suc j) (omega (arith, v.bits)) (omega (arith, small_ring k v.bits))
              (omega arith) (omega arith),
          ==-false 0 (suc j) (omega arith),
        )
        (get_same v.ring (sub64 next (suc (suc j))) (sub64 seq_nr (suc j)) (earlier_slot j hj))

  pushed-owned :
      (o : ℕ) (pkt : OutgoingPacket)
      → get (put b seq_nr (some x)) o ≡ some pkt
      → Place k next (suc n) o
  pushed-owned o pkt e = elim (Bool-cases (seq_nr % 2 ^ k == o % 2 ^ k)) [
    | inl same ↦ (0, omega arith, sym ((==_iff _ _).0 same) ∙ last_slot)
    | inr apart ↦
        let (j, hj, slot) = v.owned o pkt (sym (rw apart at (pushed o)) ∙ e) in
        (suc j, omega arith, slot ∙ sym (earlier_slot j hj))
  ]

  -- A packet that has not been sent, at the number that comes next.
  pub push-IsWindow : IsWindow k m (put b seq_nr (some x)) (u16 (seq_nr + 1)) (suc n) bytes
  push-IsWindow = record {
    ring = put-IsRing v.ring seq_nr (some x);
    bits = v.bits;
    word = omega arith;
    fits = omega arith;
    packets = packets-write v seq_nr (some x) m (omega arith) ok;
    owned = unfold next in pushed-owned;
    balance = omega (
      arith,
      v.balance,
      idle,
      outstanding-push b (put b seq_nr (some x)) seq_nr (u16 (seq_nr + 1)) n x
          (unfold next in pushed_last) (unfold next in pushed_earlier),
    );
  }
