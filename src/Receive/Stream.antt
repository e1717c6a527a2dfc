-- ===== src/Receive/Stream.antt =====
-- Whatever order the packets of a stream arrive in, the stream is read in order. The stream is
-- `contents`, by the packets' numbers; no FIN has arrived, and reading is not shut down.
use libutp.Base.{
  ℕ, zero, suc, ◌+◌, ◌%◌, ◌^◌, ◌≤◌, ◌<◌, ◌≡◌, ap, sym, ◌∙◌, arith, Bool, true, false, ◌==◌,
  ==-false, if◌then◌else◌, Option, none, some, List, [], ◌∷◌, ◌++◌,
}
use native.Mathlib.Decide.{dec_lt}
use libutp.SequenceBuffer.{get}
use libutp.SequenceBuffer.Grow.{pow-le}
use libutp.SequenceBuffer.Ring.{IsRing}
use libutp.Receive.{ReceiveState, Effect, on_read}
use libutp.Receive.Slots.{wire, get-around}
use libutp.Receive.Count.{count}

-- The bytes that the application reads.
unfoldable pub bytes_read : List Effect → List ℕ
bytes_read [] = []
bytes_read (on_read payload ∷ effects) = payload ++ bytes_read effects
bytes_read (effect ∷ effects) = bytes_read effects

-- `m` packets of the stream, from `n` on.
unfoldable pub stream : (ℕ → List ℕ) → ℕ → ℕ → List ℕ
stream contents n zero = []
stream contents n (suc m) = contents n ++ stream contents (n + 1) m

-- What a slot holds for a packet.
abbrev pub held : (ℕ → List ℕ) → (ℕ → Bool) → ℕ → Option (List ℕ)
held contents arrived q = if arrived q then some (contents q) else none

-- The packets below `n` have been read; of the others the buffer holds exactly those that arrived.
pub record IsReceiver (start : ℕ) (contents : ℕ → List ℕ) (arrived : ℕ → Bool) (n : ℕ)
    (r : ReceiveState) : Type 0 where
  pub bits : ℕ
  pub ring : IsRing bits r.inbuf
  pub small : bits ≤ 11
  pub ack_eq : r.ack_nr ≡ (start + n) % 2 ^ 16
  pub slots :
      (j : ℕ) → j < 2 ^ bits → get r.inbuf (wire start (n + j)) ≡ held contents arrived (n + j)
  pub none_behind : (j : ℕ) → 2 ^ bits ≤ j → arrived (n + j) ≡ false
  pub all_before : (q : ℕ) → q < n → arrived q ≡ true
  pub counted : r.reorder_count ≡ count arrived n (2 ^ bits)
  pub reading : r.read_shutdown ≡ false
  pub no_fin : r.got_fin ≡ false

module _ (start : ℕ) (contents : ℕ → List ℕ) where
  pub pow_eleven : (k : ℕ) → k ≤ 11 → 2 ^ k ≤ 2048
  pow_eleven k h = pow-le k 11 h

  -- The window moves on by a packet that has arrived and that the buffer does not hold any more.
  pub moved_on :
      (arrived : ℕ → Bool) (n k : ℕ) (r : ReceiveState)
      → IsRing k r.inbuf
      → k ≤ 11
      → r.ack_nr ≡ (start + (n + 1)) % 2 ^ 16
      → ((j : ℕ)
          → j < 2 ^ k
          → get r.inbuf (wire start (n + j))
            ≡ (if 0 == j then none else held contents arrived (n + j)))
      → ((j : ℕ) → 2 ^ k ≤ j → arrived (n + j) ≡ false)
      → ((q : ℕ) → q < n + 1 → arrived q ≡ true)
      → r.reorder_count ≡ count arrived (n + 1) (2 ^ k)
      → r.read_shutdown ≡ false
      → r.got_fin ≡ false
      → IsReceiver start contents arrived (n + 1) r
  moved_on arrived n k r ring small ack slots behind before counted reading no_fin = record {
    bits = k;
    ring = ring;
    small = small;
    ack_eq = ack;
    slots = λ j h. elim (dec_lt (j + 1) (2 ^ k)) [
      | yes inside ↦
          ap (λ q. get r.inbuf (wire start q)) (assoc j)
          ∙ slots (j + 1) inside
          ∙ ap (λ t. if t then none else held contents arrived (n + (j + 1)))
              (==-false 0 (j + 1) (omega arith))
          ∙ ap (held contents arrived) (sym (assoc j))
      | no last ↦
          ap (λ q. get r.inbuf (wire start q)) {y = n + 2 ^ k} (omega arith)
          ∙ get-around ring (omega arith) start n
          ∙ slots 0 (omega arith)
          ∙ ap (λ t. if t then some (contents (n + 1 + j)) else none)
              (sym (ap arrived (assoc j) ∙ behind (j + 1) (omega arith)))
    ];
    none_behind = λ j h. ap arrived (assoc j) ∙ behind (j + 1) (omega arith);
    all_before = before;
    counted = counted;
    reading = reading;
    no_fin = no_fin;
  }
    where
      assoc : (j : ℕ) → n + 1 + j ≡ n + (j + 1)
      assoc j = omega arith
