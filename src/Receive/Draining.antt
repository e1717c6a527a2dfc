-- ===== src/Receive/Draining.antt =====
-- The loop reads every packet that waited, up to the first one that is missing.
use libutp.Base.{
  ℕ, zero, suc, ◌+◌, ◌^◌, ◌<◌, ◌≡◌, ◌≢◌, refl, ap, sym, ◌∙◌, arith, Bool, true, false, inl, inr,
  ◌==◌, ==-false, ==_iff, Bool-cases, if◌then◌else◌, none, some, List, [], ◌∷◌, ◌++◌, length,
  lt→ltb, u16, sub16,
}
use native.Mathlib.Decide.{ℕ_discrete}
use mathlib.Core.List.{append_assoc, append-nil}
use mathlib.Core.Path.{subst}
use libutp.SequenceBuffer.{get, take}
use libutp.SequenceBuffer.Ring.{take-IsRing, two-le-pow}
use libutp.Receive.{ReceiveState, Effect, Timing, on_read, read, reach_fin, drain}
use libutp.Receive.Slots.{wire, take-wire, get-take-wire}
use libutp.Receive.Count.{one_if, count-le, count-shift, count-first}
use libutp.Receive.Stream.{bytes_read, stream, held, IsReceiver, moved_on, pow_eleven}

pub bytes_read-append :
    (xs ys : List Effect) → bytes_read (xs ++ ys) ≡ bytes_read xs ++ bytes_read ys
unfolding bytes_read
bytes_read-append [] ys = refl
bytes_read-append (on_read p ∷ xs) ys =
    ap (λ l. p ++ l) (bytes_read-append xs ys)
    ∙ sym (append_assoc p (bytes_read xs) (bytes_read ys))
bytes_read-append (Effect.on_eof ∷ xs) ys = bytes_read-append xs ys
bytes_read-append (Effect.set_rto_timeout t ∷ xs) ys = bytes_read-append xs ys
bytes_read-append (Effect.send_ack a ∷ xs) ys = bytes_read-append xs ys
bytes_read-append (Effect.schedule_ack ∷ xs) ys = bytes_read-append xs ys

-- An empty payload is not reported, which the bytes do not show.
pub bytes_read-read :
    (r : ReceiveState) (payload : List ℕ)
    → r.read_shutdown ≡ false
    → bytes_read (read r payload) ≡ payload
unfolding read bytes_read
bytes_read-read r [] e = refl
bytes_read-read r (b ∷ bs) e =
    rw (lt→ltb 0 (suc (length bs)) (omega arith), e, bytes_read) (append-nil (b ∷ bs))

pub stream-suc :
    (contents : ℕ → List ℕ) (n m : ℕ)
    → stream contents n (suc m) ≡ contents n ++ stream contents (n + 1) m
unfolding stream
stream-suc contents n m = refl

module _ (start : ℕ) (contents : ℕ → List ℕ) where
  abbrev Receiver : (ℕ → Bool) → ℕ → ReceiveState → Type 0
  Receiver = IsReceiver start contents

  -- The state after the packet that waited for this round.
  abbrev next_round : ReceiveState → ReceiveState
  next_round r = record r {
    inbuf = (take r.inbuf (r.ack_nr + 1)).1;
    ack_nr = u16 (r.ack_nr + 1);
    reorder_count = sub16 r.reorder_count 1;
  }

  taken :
      (arrived : ℕ → Bool) (n : ℕ) (r : ReceiveState)
      → Receiver arrived n r
      → (take r.inbuf (r.ack_nr + 1)).0 ≡ held contents arrived n
  taken arrived n r v =
      take-wire v.ring (omega (arith, v.small)) start n r.ack_nr v.ack_eq
      ∙ v.slots 0 (omega (arith, two-le-pow v.bits v.ring.some_bits))
      ∙ ap (held contents arrived) (omega arith)

  next_round-IsReceiver :
      (arrived : ℕ → Bool) (n : ℕ) (r : ReceiveState)
      → Receiver arrived n r
      → arrived n ≡ true
      → Receiver arrived (n + 1) (next_round r)
  next_round-IsReceiver arrived n r v here =
      moved_on start contents arrived n v.bits (next_round r) (take-IsRing v.ring (r.ack_nr + 1))
        v.small (omega (arith, v.ack_eq))
        (λ j h.
          get-take-wire v.ring (omega (arith, v.small)) start n r.ack_nr j v.ack_eq h
          ∙ ap (λ x. if 0 == j then none else x) (v.slots j h))
        v.none_behind
        (λ q h. elim (ℕ_discrete q n) [
          | yes same ↦ ap arrived same ∙ here
          | no other ↦ v.all_before q (omega arith)
        ])
        (omega (
          arith,
          v.counted,
          count-shift arrived n (2 ^ v.bits) (v.none_behind (2 ^ v.bits) (omega arith)),
          ap one_if here,
          count-le arrived n (2 ^ v.bits),
          pow_eleven start contents v.bits v.small,
        ))
        v.reading v.no_fin

  -- The gap's slot is emptied once more.
  gap-IsReceiver :
      (arrived : ℕ → Bool) (n : ℕ) (r : ReceiveState)
      → Receiver arrived n r
      → arrived n ≡ false
      → Receiver arrived n (record r { inbuf = (take r.inbuf (r.ack_nr + 1)).1 })
  gap-IsReceiver arrived n r v missing = record {
    bits = v.bits;
    ring = take-IsRing v.ring (r.ack_nr + 1);
    small = v.small;
    ack_eq = v.ack_eq;
    slots = λ j h.
        get-take-wire v.ring (omega (arith, v.small)) start n r.ack_nr j v.ack_eq h
        ∙ elim (ℕ_discrete 0 j) [
          | yes first ↦
              ap (λ b. if b then none else get r.inbuf (wire start (n + j))) ((==_iff 0 j).1 first)
              ∙ ap (λ b. if b then some (contents (n + j)) else none)
                  (sym (ap arrived {y = n} (omega arith) ∙ missing))
          | no later ↦
              ap (λ b. if b then none else get r.inbuf (wire start (n + j))) (==-false 0 j later)
              ∙ v.slots j h
        ];
    none_behind = v.none_behind;
    all_before = v.all_before;
    counted = v.counted;
    reading = v.reading;
    no_fin = v.no_fin;
  }

  no_fin_reached : (t : Timing) (r : ReceiveState) → r.got_fin ≡ false → reach_fin t r ≡ (r, [])
  unfolding reach_fin
  no_fin_reached t r e = elim (Bool-cases r.got_fin_reached) [
    | inl yet ↦ simp (e, yet) refl
    | inr not_yet ↦ simp (e, not_yet) refl
  ]

  drain-empty :
      (t : Timing) (fuel : ℕ) (r : ReceiveState)
      → r.got_fin ≡ false
      → r.reorder_count ≡ 0
      → drain t (suc fuel) r ≡ some (r, [])
  unfolding drain
  drain-empty t fuel r no_fin e = simp (no_fin_reached t r no_fin, e) refl

  drain-gap :
      (t : Timing) (fuel : ℕ) (r : ReceiveState)
      → r.got_fin ≡ false
      → r.reorder_count ≢ 0
      → (take r.inbuf (r.ack_nr + 1)).0 ≡ none
      → drain t (suc fuel) r ≡ some (record r { inbuf = (take r.inbuf (r.ack_nr + 1)).1 }, [])
  unfolding drain
  drain-gap t fuel r no_fin ne e =
      simp (no_fin_reached t r no_fin, ==-false r.reorder_count 0 ne, e) refl

  drain-next :
      (t : Timing) (fuel : ℕ) (r r' : ReceiveState) (payload : List ℕ) (effects : List Effect)
      → r.got_fin ≡ false
      → r.reorder_count ≢ 0
      → (take r.inbuf (r.ack_nr + 1)).0 ≡ some payload
      → drain t fuel (next_round r) ≡ some (r', effects)
      → drain t (suc fuel) r ≡ some (r', read r payload ++ effects)
  unfolding drain
  drain-next t fuel r r' payload effects no_fin ne e rest =
      simp (no_fin_reached t r no_fin, ==-false r.reorder_count 0 ne, e, rest) refl

  -- The loop of a receiver whose awaited packet may have arrived.
  pub drain_lem :
      (t : Timing) (fuel : ℕ) (arrived : ℕ → Bool) (n : ℕ) (r : ReceiveState)
      → Receiver arrived n r
      → r.reorder_count < fuel
      → (m : ℕ) × (r' : ReceiveState) × (effects : List Effect) × (drain t fuel r
          ≡ some (r', effects))
        × Receiver arrived (n + m) r'
        × (arrived (n + m) ≡ false)
        × (bytes_read effects ≡ stream contents n m)
  drain_lem t zero arrived n r v enough = absurd (omega arith)
  drain_lem t (suc fuel) arrived n r v enough = elim (Bool-cases (arrived n)) [
    | inr missing ↦ elim (ℕ_discrete r.reorder_count 0) [
      | yes empty ↦ (
        0,
        r,
        [],
        drain-empty t fuel r v.no_fin empty,
        subst (λ k. Receiver arrived k r) {x = n} (omega arith) v,
        ap arrived {y = n} (omega arith) ∙ missing,
        unfold bytes_read stream in refl,
      )
      | no ne ↦ (
        0,
        record r { inbuf = (take r.inbuf (r.ack_nr + 1)).1 },
        [],
        drain-gap t fuel r v.no_fin ne
            (taken arrived n r v ∙ ap (λ b. if b then some (contents n) else none) missing),
        subst (λ k. Receiver arrived k (record r { inbuf = (take r.inbuf (r.ack_nr + 1)).1 }))
            {x = n} (omega arith) (gap-IsReceiver arrived n r v missing),
        ap arrived {y = n} (omega arith) ∙ missing,
        unfold bytes_read stream in refl,
      )
    ]
    | inl here ↦
        let some_wait : 0 < r.reorder_count = omega (
          arith,
          v.counted,
          count-first arrived n (2 ^ v.bits) (omega (arith, two-le-pow v.bits v.ring.some_bits))
              here,
        ) in
        let (m, r', effects, e, v', missing, bytes) =
          drain_lem t fuel arrived (n + 1) (next_round r) (next_round-IsReceiver arrived n r v here)
            (omega (
              arith,
              some_wait,
              v.counted,
              count-le arrived n (2 ^ v.bits),
              pow_eleven start contents v.bits v.small,
            )) in
        (
          suc m,
          r',
          read r (contents n) ++ effects,
          drain-next t fuel r r' (contents n) effects v.no_fin (omega (arith, some_wait))
              (taken arrived n r v ∙ ap (λ b. if b then some (contents n) else none) here) e,
          subst (λ k. Receiver arrived k r') {x = n + 1 + m} (omega arith) v',
          ap arrived {y = n + 1 + m} (omega arith) ∙ missing,
          bytes_read-append (read r (contents n)) effects
              ∙ ap (λ l. l ++ bytes_read effects) (bytes_read-read r (contents n) v.reading)
              ∙ ap (λ l. contents n ++ l) bytes
              ∙ sym (stream-suc contents n m),
        )
  ]
