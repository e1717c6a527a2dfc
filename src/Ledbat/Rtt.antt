-- ===== src/Ledbat/Rtt.antt =====
-- `update_rtt`: the estimate stays between what it was and the sample, and so does the timeout.
use libutp.Base.{ℕ, ◌+◌, ◌-◌, ◌*◌, ◌/◌, ◌^◌, ◌≤◌, ◌<◌, ◌≡◌, ◌≢◌, arith, min, max}
use libutp.Base.{u64}
use libutp.Base.Int.{signed32, pos, ◌-ℤ◌, ◌+ℤ◌, quot, word32, abs_ℤ}
use libutp.Ledbat.{Ledbat, update_rtt, next_rtt, next_rtt_var, sample_rtt, restart_rto}

-- The distance between two estimates.
abbrev pub distance : ℕ → ℕ → ℕ
distance a b = (a - b) + (b - a)

next_rtt_between :
    (rtt ertt : ℕ)
    → rtt < 2 ^ 28
    → ertt < 2 ^ 28
    → (min rtt ertt ≤ next_rtt rtt ertt) × (next_rtt rtt ertt ≤ max rtt ertt)
unfolding next_rtt
next_rtt_between rtt ertt h k = omega arith

-- A quarter of the way from `var` to `d`.
quarter_between :
    (var d : ℕ)
    → var < 2 ^ 28
    → d < 2 ^ 28
    → let moved = word32 (pos var +ℤ quot (pos d -ℤ signed32 var) 4) in
      (min var d ≤ moved) × (moved ≤ max var d)
unfolding quot word32 ◌-ℤ◌ ◌+ℤ◌
quarter_between var d h k = ground arith

abs_distance :
    (rtt ertt : ℕ)
    → rtt < 2 ^ 28
    → ertt < 2 ^ 28
    → abs_ℤ (signed32 rtt -ℤ signed32 ertt) ≡ distance rtt ertt
unfolding ◌-ℤ◌
abs_distance rtt ertt h k = ground arith

next_rtt_var_between :
    (rtt var ertt : ℕ)
    → rtt < 2 ^ 28
    → var < 2 ^ 28
    → ertt < 2 ^ 28
    → (min var (distance rtt ertt) ≤ next_rtt_var rtt var ertt)
      × (next_rtt_var rtt var ertt ≤ max var (distance rtt ertt))
unfolding next_rtt_var
next_rtt_var_between rtt var ertt h k l =
    rw (abs_distance rtt ertt h l) (quarter_between var (distance rtt ertt) k (omega arith))

-- With the estimate, the variation and the sample below 2 ^ 28: the estimate moves to a value
-- between the old one and the sample, the variation to one between the old one and the distance of
-- the two, and the first sample is taken as it is with half of it for the variation. The timeout is
-- the estimate with four variations, at least a second, and the timer starts at it.
pub update_rtt_lem :
    (c : Ledbat) (ertt current_ms : ℕ)
    → c.rtt < 2 ^ 28
    → c.rtt_var < 2 ^ 28
    → ertt < 2 ^ 28
    → let c' = update_rtt c ertt current_ms in
      (c.rtt ≡ 0 → (c'.rtt ≡ ertt) × (c'.rtt_var ≡ ertt / 2))
      × (c.rtt ≢ 0
          → (min c.rtt ertt ≤ c'.rtt)
            × (c'.rtt ≤ max c.rtt ertt)
            × (min c.rtt_var (distance c.rtt ertt) ≤ c'.rtt_var)
            × (c'.rtt_var ≤ max c.rtt_var (distance c.rtt ertt)))
      × (c'.rto ≡ max (c'.rtt + c'.rtt_var * 4) 1000)
      × (c'.retransmit_timeout ≡ c'.rto)
      × (c'.rto_timeout ≡ u64 (current_ms + c'.rto))
unfolding update_rtt sample_rtt restart_rto
update_rtt_lem c ertt current_ms h k l =
    ground (arith, next_rtt_between c.rtt ertt, next_rtt_var_between c.rtt c.rtt_var ertt)
