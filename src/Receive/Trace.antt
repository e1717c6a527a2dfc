-- ===== src/Receive/Trace.antt =====
-- Everything that arrives at a receiver, from its creation on.
use libutp.Base.{
  ℕ, zero, suc, ◌+◌, ◌%◌, ◌^◌, ◌≤◌, ◌<◌, ◌≡◌, ◌≢◌, refl, ap, sym, ◌∙◌, arith, Bool, true, false,
  Option, some, List, [], ◌++◌,
}
use native.Mathlib.Decide.{dec_lt}
use mathlib.Core.List.{append_assoc}
use mathlib.Core.Path.{subst}
use libutp.Wire.{st_data}
use libutp.SequenceBuffer.{initialize}
use libutp.SequenceBuffer.Window.{initialize_lem}
use libutp.Receive.{ReceiveState, Effect, Timing, receive}
use libutp.Receive.Slots.{wire}
use libutp.Receive.Count.{count-none, mark}
use libutp.Receive.Stream.{bytes_read, stream, IsReceiver}
use libutp.Receive.Session.{Delivers, receive-Delivers}

-- The receive state of a new connection, after the sequence number `start`.
abbrev pub new_receiver : ℕ → ReceiveState
new_receiver start = record {
  ack_nr = start % 2 ^ 16;
  reorder_count = 0;
  eof_pkt = 0;
  got_fin = false;
  got_fin_reached = false;
  read_shutdown = false;
  inbuf = initialize (2 ^ 4);
}

module _ (start : ℕ) (contents : ℕ → List ℕ) (t : Timing) where
  -- Packets arrive in any order and any number of times, each while it is less than 1024 ahead of
  -- the first one that has not arrived and at most 1024 behind. The list has the bytes read so far.
  pub data Arrivals : (ℕ → Bool) → ReceiveState → List ℕ → Type 0 where
    new : Arrivals (λ q. false) (new_receiver start) []
    arrives :
        {arrived : ℕ → Bool} {r r' : ReceiveState} {bytes : List ℕ} {effects : List Effect}
        (p awaited : ℕ)
        → Arrivals arrived r bytes
        → arrived awaited ≡ false
        → ((q : ℕ) → q < awaited → arrived q ≡ true)
        → p < awaited + 1024
        → awaited ≤ p + 1024
        → receive t r st_data (wire start p) (contents p) ≡ some (r', effects)
        → Arrivals (mark p arrived) r' (bytes ++ bytes_read effects)

pub new_receiver-IsReceiver :
    (start : ℕ) (contents : ℕ → List ℕ)
    → IsReceiver start contents (λ q. false) 0 (new_receiver start)
new_receiver-IsReceiver start contents = record {
  bits = 4;
  ring = (initialize_lem 4 0 (omega arith) (omega arith)).0;
  small = omega arith;
  ack_eq = omega arith;
  slots = λ j h. (initialize_lem 4 _ (omega arith) (omega arith)).1;
  none_behind = λ j h. refl;
  all_before = λ q h. absurd (omega arith);
  counted = sym (count-none 0 16);
  reading = refl;
  no_fin = refl;
}

true-ne-false : true ≢ false
true-ne-false e = ground arith

-- The first packet that is missing is one packet.
first_missing :
    (arrived : ℕ → Bool) (n k : ℕ)
    → arrived n ≡ false
    → ((q : ℕ) → q < n → arrived q ≡ true)
    → arrived k ≡ false
    → ((q : ℕ) → q < k → arrived q ≡ true)
    → n ≡ k
first_missing arrived n k mn bn mk bk = elim (dec_lt n k) [
  | yes lt ↦ absurd (true-ne-false (sym (bk n lt) ∙ mn))
  | no ge ↦ elim (dec_lt k n) [
    | yes lt ↦ absurd (true-ne-false (sym (bn k lt) ∙ mk))
    | no ge' ↦ omega arith
  ]
]

stream-append :
    (contents : ℕ → List ℕ) (n k m : ℕ)
    → stream contents n k ++ stream contents (n + k) m ≡ stream contents n (k + m)
unfolding stream
stream-append contents n zero m =
    ap (λ q. stream contents q m) {y = n} (omega arith) ∙ ap (stream contents n) (omega arith)
stream-append contents n (suc k) m =
    append_assoc (contents n) (stream contents (n + 1) k) (stream contents (n + suc k) m)
    ∙ ap (λ l. contents n ++ l)
        (ap (λ q. stream contents (n + 1) k ++ stream contents q m) {y = n + 1 + k} (omega arith)
          ∙ stream-append contents (n + 1) k m)
    ∙ ap (stream contents n) {x = suc (k + m)} (omega arith)

whole :
    (contents : ℕ → List ℕ) (n m : ℕ)
    → stream contents 0 n ++ stream contents n m ≡ stream contents 0 (n + m)
whole contents n m =
    ap (λ q. stream contents 0 n ++ stream contents q m) {y = 0 + n} (omega arith)
    ∙ stream-append contents 0 n m

same_result :
    {r r' : ReceiveState} {effects effects' : List Effect} {o : Option (ReceiveState × List Effect)}
    → o ≡ some (r, effects)
    → o ≡ some (r', effects')
    → (r ≡ r') × (effects ≡ effects')
same_result e e' = (cc, cc)

-- Of a stream before its FIN: whatever packets have arrived in whatever order, each while it was
-- less than 1024 ahead of the first one missing and at most 1024 behind, the application has read the
-- packets below the first one that is missing, each once and in order, and nothing else; the
-- receiver awaits that packet, and its buffer holds exactly those that have arrived beyond it.
pub Arrivals-IsReceiver :
    (start : ℕ) (contents : ℕ → List ℕ) (t : Timing) {arrived : ℕ → Bool} {r : ReceiveState}
    {bytes : List ℕ}
    → Arrivals start contents t arrived r bytes
    → (n : ℕ) × IsReceiver start contents arrived n r
      × (arrived n ≡ false)
      × (bytes ≡ stream contents 0 n)
unfolding stream Delivers
Arrivals-IsReceiver start contents t new = (0, new_receiver-IsReceiver start contents, refl, refl)
Arrivals-IsReceiver start contents t
      (arrives {arrived = arrived} {r = r} {effects = effects} p awaited before missing below ahead
        behind e) =
    let (n, v, missing', bytes_eq) = Arrivals-IsReceiver start contents t before in
    let same = first_missing arrived n awaited missing' v.all_before missing below in
    let (m, r1, effects1, e1, v1, missing1, bytes1) =
      receive-Delivers start contents t arrived n p r v missing' (omega (arith, same))
        (omega (arith, same)) in
    let (er, ee) = same_result e1 e in
    (
      n + m,
      subst (λ x. IsReceiver start contents (mark p arrived) (n + m) x) er v1,
      missing1,
      ap (λ l. l ++ bytes_read effects) bytes_eq
          ∙ ap (λ x. stream contents 0 n ++ bytes_read x) (sym ee)
          ∙ ap (λ l. stream contents 0 n ++ l) bytes1
          ∙ whole contents n m,
    )
