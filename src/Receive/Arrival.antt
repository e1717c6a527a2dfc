-- ===== src/Receive/Arrival.antt =====
-- One packet of the stream arrives.
use libutp.Base.{
  ℕ, ◌+◌, ◌-◌, ◌^◌, ◌≤◌, ◌<◌, ◌≡◌, ◌≢◌, refl, ap, sym, ◌∙◌, arith, Bool, true, false, inl, inr,
  ==-false, ==_iff, Bool-cases, if◌then◌else◌, none, some, List, ltb, ltb→lt, ltb-false, u16,
}
use native.Mathlib.Decide.{ℕ_discrete}
use mathlib.Core.Path.{fun_ext}
use libutp.SequenceBuffer.{SequenceBuffer, get, put}
use libutp.SequenceBuffer.Grow.{pow-le}
use libutp.SequenceBuffer.Ring.{IsRing, put-IsRing, two-le-pow}
use libutp.Receive.{ReceiveState}
use libutp.Receive.Slots.{wire, get-put-wire}
use libutp.Receive.Count.{
  count, mark, one_if, count-le, count-shift, count-longer, count-mark, count-mark_before,
}
use libutp.Receive.Stream.{held, IsReceiver, moved_on, pow_eleven}

module _ (start : ℕ) (contents : ℕ → List ℕ) where
  abbrev Receiver : (ℕ → Bool) → ℕ → ReceiveState → Type 0
  Receiver = IsReceiver start contents

  pub mark_self : (p : ℕ) (arrived : ℕ → Bool) → mark p arrived p ≡ true
  mark_self p arrived = ap (λ b. if b then true else arrived p) ((==_iff p p).1 refl)

  pub mark_other : (p q : ℕ) (arrived : ℕ → Bool) → q ≢ p → mark p arrived q ≡ arrived q
  mark_other p q arrived ne = ap (λ b. if b then true else arrived q) (==-false q p ne)

  -- The awaited packet arrives: what the state is when the loop begins.
  pub awaited-IsReceiver :
      (arrived : ℕ → Bool) (n : ℕ) (r : ReceiveState)
      → Receiver arrived n r
      → arrived n ≡ false
      → Receiver (mark n arrived) (n + 1) (record r { ack_nr = u16 (r.ack_nr + 1) })
  awaited-IsReceiver arrived n r v missing =
      moved_on start contents (mark n arrived) n v.bits (record r { ack_nr = u16 (r.ack_nr + 1) })
        v.ring v.small (omega (arith, v.ack_eq))
        (λ j h. elim (ℕ_discrete 0 j) [
          | yes first ↦
              v.slots j h
              ∙ ap (λ b. if b then some (contents (n + j)) else none)
                  (ap arrived {y = n} (omega arith) ∙ missing)
              ∙ ap (λ b. if b then none else held contents (mark n arrived) (n + j))
                  (sym ((==_iff 0 j).1 first))
          | no later ↦
              v.slots j h
              ∙ ap (λ b. if b then some (contents (n + j)) else none)
                  (sym (mark_other n (n + j) arrived (omega (arith, later))))
              ∙ ap (λ b. if b then none else held contents (mark n arrived) (n + j))
                  (sym (==-false 0 j later))
        ])
        (λ j h.
          mark_other n (n + j) arrived (omega (arith, two-le-pow v.bits v.ring.some_bits))
          ∙ v.none_behind j h)
        (λ q h. elim (ℕ_discrete q n) [
          | yes same ↦ ap (mark n arrived) same ∙ mark_self n arrived
          | no other ↦ mark_other n q arrived other ∙ v.all_before q (omega arith)
        ])
        (v.counted
          ∙ count-shift arrived n (2 ^ v.bits) (v.none_behind (2 ^ v.bits) (omega arith))
          ∙ ap (λ b. one_if b + count arrived (n + 1) (2 ^ v.bits)) missing
          ∙ omega (arith, count-mark_before arrived n (n + 1) (2 ^ v.bits) (omega arith)))
        v.reading v.no_fin

  -- A wider buffer with the same packets.
  pub widened-IsReceiver :
      (arrived : ℕ → Bool) (n m : ℕ) (r : ReceiveState) (b : SequenceBuffer (List ℕ))
      (v : Receiver arrived n r)
      → IsRing m b
      → v.bits ≤ m
      → m ≤ 11
      → ((j : ℕ)
          → j < 2 ^ m
          → get b (wire start (n + j))
            ≡ (if ltb j (2 ^ v.bits) then get r.inbuf (wire start (n + j)) else none))
      → (v' : Receiver arrived n (record r { inbuf = b })) × (v'.bits ≡ m)
  widened-IsReceiver arrived n m r b v ring wider small slots = (
    record {
      bits = m;
      ring = ring;
      small = small;
      ack_eq = v.ack_eq;
      slots = λ j h. slots j h ∙ elim (Bool-cases (ltb j (2 ^ v.bits))) [
        | inl inside ↦ rw inside (v.slots j (ltb→lt _ _ inside))
        | inr beyond ↦ rw beyond (
            ap (λ c. if c then some (contents (n + j)) else none)
              (sym (v.none_behind j (ltb-false _ _ beyond))))
      ];
      none_behind = λ j h. v.none_behind j (omega (arith, pow-le v.bits m wider));
      all_before = v.all_before;
      counted =
          v.counted
          ∙ sym (count-longer arrived n (2 ^ v.bits) (2 ^ m - 2 ^ v.bits) v.none_behind)
          ∙ ap (count arrived n) (omega (arith, pow-le v.bits m wider));
      reading = v.reading;
      no_fin = v.no_fin;
    },
    refl,
  )

  -- A packet ahead that has not arrived before is put into the buffer.
  pub kept-IsReceiver :
      (arrived : ℕ → Bool) (n d : ℕ) (r : ReceiveState) (v : Receiver arrived n r)
      → arrived (n + d) ≡ false
      → d < 2 ^ v.bits
      → Receiver (mark (n + d) arrived) n (record r {
        inbuf = put r.inbuf (wire start (n + d)) (some (contents (n + d)));
        reorder_count = u16 (r.reorder_count + 1);
      })
  kept-IsReceiver arrived n d r v new within = record {
    bits = v.bits;
    ring = put-IsRing v.ring _ _;
    small = v.small;
    ack_eq = v.ack_eq;
    slots = λ j h.
        get-put-wire v.ring (omega (arith, v.small)) start n d j (some (contents (n + d))) within h
        ∙ elim (ℕ_discrete d j) [
          | yes here ↦
              ap (λ c. if c then some (contents (n + d)) else get r.inbuf (wire start (n + j)))
                ((==_iff d j).1 here)
              ∙ ap (λ i. some (contents (n + i))) here
              ∙ ap (λ c. if c then some (contents (n + j)) else none)
                  (sym
                    (ap (λ i. mark (n + d) arrived (n + i)) (sym here) ∙ mark_self (n + d) arrived))
          | no there ↦
              ap (λ c. if c then some (contents (n + d)) else get r.inbuf (wire start (n + j)))
                (==-false d j there)
              ∙ v.slots j h
              ∙ ap (λ c. if c then some (contents (n + j)) else none)
                  (sym (mark_other (n + d) (n + j) arrived (omega (arith, there))))
        ];
    none_behind = λ j h. mark_other (n + d) (n + j) arrived (omega arith) ∙ v.none_behind j h;
    all_before = λ q h. mark_other (n + d) q arrived (omega arith) ∙ v.all_before q h;
    counted = omega (
      arith,
      v.counted,
      count-mark arrived (n + d) n (2 ^ v.bits) (omega arith) (omega arith) new,
      count-le arrived n (2 ^ v.bits),
      pow_eleven start contents v.bits v.small,
    );
    reading = v.reading;
    no_fin = v.no_fin;
  }

  -- A packet that arrives again changes nothing of what has arrived.
  pub mark_again : (p : ℕ) (arrived : ℕ → Bool) → arrived p ≡ true → mark p arrived ≡ arrived
  mark_again p arrived e = fun_ext (λ q. elim (ℕ_discrete q p) [
    | yes same ↦ ap (mark p arrived) same ∙ mark_self p arrived ∙ sym (ap arrived same ∙ e)
    | no other ↦ mark_other p q arrived other
  ])
