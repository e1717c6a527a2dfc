-- ===== src/SequenceBuffer/Tests.antt =====
-- Runs of the ring buffer, and its theorems at concrete buffers.
use mathlib.Core.Option
use libutp.Base.{ℕ, ◌*◌, ◌⊎◌, Option, ◌^◌, ◌<◌, ◌≤◌, ◌≡◌, refl, arith, none, some, sub64}
use libutp.SequenceBuffer.{SequenceBuffer, get, put, take, grow, ensure_size, initialize, migrate}
use libutp.SequenceBuffer.{resized, next_size, first_size}
use libutp.SequenceBuffer.Ring.{IsRing, take_lem}
use libutp.SequenceBuffer.Grow.{Widened}
use libutp.SequenceBuffer.Window.{ensure_size_lem}

abbrev four_slots : SequenceBuffer ℕ
unfolding initialize
four_slots = initialize (2 ^ 2)

-- Packets 6 and 9 of a window that starts at 6, which goes round the end of the ring.
abbrev two_packets : SequenceBuffer ℕ
unfolding put initialize
two_packets = put (put four_slots 6 (some 60)) 9 (some 90)

two_packets-IsRing : IsRing 2 two_packets
unfolding put initialize
two_packets-IsRing = omega arith

-- Growing to hold an offset of 5 makes eight slots, and keeps both packets.
grow_run :
    Option.map {B = ℕ × Option ℕ × Option ℕ × Option ℕ}
      (λ b. (b.mask, get b 6, get b 9, get b 7))
      (ensure_size two_packets 11 5)
    ≡ some (7, some 60, some 90, none)
unfolding ensure_size grow first_size next_size resized migrate put initialize get
grow_run = refl

ensure_size_lem_example :
    (m : ℕ) × (b : SequenceBuffer ℕ) × (ensure_size two_packets 11 5 ≡ some b)
    × IsRing m b
    × (2 ≤ m)
    × (5 < 2 ^ m)
    × ((m ≡ 2) ⊎ (2 ^ m ≤ 2 * 5))
    × Widened (sub64 11 5) 2 m two_packets b
ensure_size_lem_example = ensure_size_lem 11 5 two_packets-IsRing (omega arith)

take_lem_example :
    ((take two_packets 9).0 ≡ get two_packets 9)
    × (get (take two_packets 9).1 6 ≡ get two_packets 6)
take_lem_example = take_lem two_packets-IsRing 9 6
