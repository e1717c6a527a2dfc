-- ===== src/Receive/Session.antt =====
-- A session: packets of a stream arrive in any order, any number of times.
use libutp.Base.{
  ℕ, suc, ◌+◌, ◌-◌, ◌%◌, ◌^◌, ◌≤◌, ◌<◌, ◌≡◌, refl, ap, sym, ◌∙◌, arith, Bool, false, inl, inr,
  Bool-cases, if◌then◌else◌, none, some, List, [], ◌∷◌, ◌++◌,
}
use native.Mathlib.Decide.{dec_lt, ℕ_discrete}
use mathlib.Core.List.{append-nil}
use mathlib.Core.Path.{subst}
use libutp.Wire.{st_data}
use libutp.Receive.{ReceiveState, Effect, Timing, schedule_ack, relative_seq, read, receive}
use libutp.Receive.Slots.{wire, widened-wire}
use libutp.Receive.Count.{mark}
use libutp.Receive.Stream.{bytes_read, stream, IsReceiver}
use libutp.Receive.Draining.{bytes_read-append, bytes_read-read, stream-suc, drain_lem}
use libutp.Receive.Arrival.{
  awaited-IsReceiver, widened-IsReceiver, kept-IsReceiver, mark_again, mark_other,
}
use libutp.Receive.Delivery.{receive-awaited, receive-old, file-new, file-known, receive-ahead}

module _ (start : ℕ) (contents : ℕ → List ℕ) (t : Timing) where
  -- What the arrival of packet `p` does to a receiver that awaits `n`.
  unfoldable pub Delivers : (ℕ → Bool) → ℕ → ReceiveState → ℕ → Type 0
  Delivers arrived n r p =
      (m : ℕ) × (r' : ReceiveState) × (effects : List Effect) × (receive t r st_data (wire start p)
          (contents p)
        ≡ some (r', effects))
      × IsReceiver start contents (mark p arrived) (n + m) r'
      × (mark p arrived (n + m) ≡ false)
      × (bytes_read effects ≡ stream contents n m)

  relative_zero :
      (r : ReceiveState) (n : ℕ)
      → r.ack_nr ≡ (start + n) % 2 ^ 16
      → relative_seq r (wire start n) ≡ 0
  unfolding relative_seq
  relative_zero r n e = omega arith

  relative_ahead :
      (r : ReceiveState) (n d : ℕ)
      → r.ack_nr ≡ (start + n) % 2 ^ 16
      → d < 1024
      → relative_seq r (wire start (n + d)) ≡ d
  unfolding relative_seq
  relative_ahead r n d e near = omega arith

  relative_old :
      (r : ReceiveState) (n p : ℕ)
      → r.ack_nr ≡ (start + n) % 2 ^ 16
      → p < n
      → n ≤ p + 1024
      → relative_seq r (wire start p) ≡ 2 ^ 16 - (n - p)
  unfolding relative_seq
  relative_old r n p e old near = omega arith

  one_ack : (r : ReceiveState) → bytes_read (schedule_ack ∷ []) ≡ []
  unfolding bytes_read
  one_ack r = refl

  Delivers-awaited :
      (arrived : ℕ → Bool) (n : ℕ) (r : ReceiveState)
      → IsReceiver start contents arrived n r
      → arrived n ≡ false
      → Delivers arrived n r n
  unfolding Delivers
  Delivers-awaited arrived n r v missing =
      let (m, r', effects, e, v', missing', bytes) =
        drain_lem start contents t (r.reorder_count + 1) (mark n arrived) (n + 1) _
          (awaited-IsReceiver start contents arrived n r v missing) (omega arith) in
      (
        suc m,
        r',
        read r (contents n) ++ (effects ++ schedule_ack ∷ []),
        receive-awaited t r (wire start n) (contents n) v.no_fin r' effects
            (relative_zero r n v.ack_eq) e,
        subst (λ k. IsReceiver start contents (mark n arrived) k r') {x = n + 1 + m} (omega arith)
            v',
        ap (mark n arrived) {y = n + 1 + m} (omega arith) ∙ missing',
        bytes_read-append (read r (contents n)) (effects ++ schedule_ack ∷ [])
            ∙ ap (λ l. l ++ bytes_read (effects ++ schedule_ack ∷ []))
                (bytes_read-read r (contents n) v.reading)
            ∙ ap (λ l. contents n ++ l)
                (bytes_read-append effects (schedule_ack ∷ [])
                  ∙ ap (λ l. bytes_read effects ++ l) (one_ack r)
                  ∙ append-nil (bytes_read effects)
                  ∙ bytes)
            ∙ sym (stream-suc contents n m),
      )

  -- What stays as it is awaits the same packet and reads nothing.
  stays :
      (arrived : ℕ → Bool) (n p : ℕ) (r r' : ReceiveState) (effects : List Effect)
      → receive t r st_data (wire start p) (contents p) ≡ some (r', effects)
      → IsReceiver start contents (mark p arrived) n r'
      → mark p arrived n ≡ false
      → bytes_read effects ≡ []
      → Delivers arrived n r p
  unfolding Delivers stream
  stays arrived n p r r' effects e v missing silent = (
    0,
    r',
    effects,
    e,
    subst (λ k. IsReceiver start contents (mark p arrived) k r') {x = n} (omega arith) v,
    ap (mark p arrived) {y = n} (omega arith) ∙ missing,
    silent,
  )

  Delivers-ahead :
      (arrived : ℕ → Bool) (n d : ℕ) (r : ReceiveState)
      → IsReceiver start contents arrived n r
      → arrived n ≡ false
      → 0 < d
      → d < 1024
      → Delivers arrived n r (n + d)
  Delivers-ahead arrived n d r v missing ahead near =
      let (m, b, sized, ring, wider, small, within, slots) =
        widened-wire start n d v.ring v.small near in
      let (v', bits) = widened-IsReceiver start contents arrived n m r b v ring wider small slots in
      let here = v'.slots d (rw bits within) in
      let comes =
        receive-ahead t r (wire start (n + d)) (contents (n + d)) v.no_fin d b
          (relative_ahead r n d v.ack_eq near) ahead near sized in
      elim (Bool-cases (arrived (n + d))) [
        | inr new ↦
            stays arrived n (n + d) r _ (schedule_ack ∷ [])
              (comes
                ∙ file-new t r (wire start (n + d)) (contents (n + d)) v.no_fin b
                    (here ∙ ap (λ c. if c then some (contents (n + d)) else none) new))
              (kept-IsReceiver start contents arrived n d _ v' new (rw bits within))
              (mark_other start contents (n + d) n arrived (omega arith) ∙ missing) (one_ack r)
        | inl known ↦
            stays arrived n (n + d) r _ []
              (comes
                ∙ file-known t r (wire start (n + d)) (contents (n + d)) v.no_fin b
                    (contents (n + d))
                    (here ∙ ap (λ c. if c then some (contents (n + d)) else none) known))
              (subst (λ a. IsReceiver start contents a n (record r { inbuf = b }))
                (sym (mark_again start contents (n + d) arrived known)) v')
              (mark_other start contents (n + d) n arrived (omega arith) ∙ missing)
              (unfold bytes_read in refl)
      ]

  Delivers-old :
      (arrived : ℕ → Bool) (n p : ℕ) (r : ReceiveState)
      → IsReceiver start contents arrived n r
      → arrived n ≡ false
      → p < n
      → n ≤ p + 1024
      → Delivers arrived n r p
  Delivers-old arrived n p r v missing old near =
      let back = relative_old r n p v.ack_eq old near in
      stays arrived n p r r (schedule_ack ∷ [])
        (receive-old t r (wire start p) (contents p) v.no_fin (omega (arith, back))
          (omega (arith, back)))
        (subst (λ a. IsReceiver start contents a n r)
          (sym (mark_again start contents p arrived (v.all_before p old))) v)
        (mark_other start contents p n arrived (omega arith) ∙ missing) (one_ack r)

  -- Before a FIN and while reading is not shut down, a receiver that awaits packet `n` takes any
  -- packet of data of the stream that is less than 1024 ahead
  -- of it or at most 1024 behind. It reads exactly the packets from `n` up to the next one that is
  -- missing, which it awaits after that, and holds those that are ahead.
  pub receive-Delivers :
      (arrived : ℕ → Bool) (n p : ℕ) (r : ReceiveState)
      → IsReceiver start contents arrived n r
      → arrived n ≡ false
      → p < n + 1024
      → n ≤ p + 1024
      → Delivers arrived n r p
  receive-Delivers arrived n p r v missing ahead behind = elim (dec_lt p n) [
    | yes old ↦ Delivers-old arrived n p r v missing old behind
    | no not_old ↦ elim (ℕ_discrete p n) [
      | yes awaited ↦
          subst (λ q. Delivers arrived n r q) (sym awaited) (Delivers-awaited arrived n r v missing)
      | no later ↦
          subst (λ q. Delivers arrived n r q) {x = n + (p - n)} (omega (arith, not_old))
            (Delivers-ahead arrived n (p - n) r v missing (omega (arith, not_old, later))
              (omega arith))
    ]
  ]
