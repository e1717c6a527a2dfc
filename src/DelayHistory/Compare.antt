-- ===== src/DelayHistory/Compare.antt =====
-- `wrapping_compare_less` as an order: on 32 bits for timestamps, on 16 for sequence numbers.
use libutp.Base.{ℕ, ◌+◌, ◌%◌, ◌^◌, ◌-◌, ◌<◌, ◌≡◌, arith, bit_and_mask}
use libutp.Base.{u32, sub32, sub16, ltb, ◌&&◌, ◌∙◌, u16}
use libutp.DelayHistory.{wrapping_compare_less, timestamp_mask}

-- Both distances, as remainders.
wrapping_lem :
    (k lhs rhs : ℕ)
    → wrapping_compare_less lhs rhs (2 ^ k - 1)
      ≡ ltb (sub32 rhs lhs % 2 ^ k) (sub32 lhs rhs % 2 ^ k)
unfolding wrapping_compare_less
wrapping_lem k lhs rhs = rw (bit_and_mask k (sub32 rhs lhs), bit_and_mask k (sub32 lhs rhs))

-- Of two timestamps the first is earlier exactly if the second lies less than half the circle
-- ahead of it, and not at it.
pub wrapping_timestamps :
    (lhs rhs : ℕ)
    → lhs < 2 ^ 32
    → rhs < 2 ^ 32
    → wrapping_compare_less lhs rhs timestamp_mask
      ≡ (ltb 0 (sub32 rhs lhs) && ltb (sub32 rhs lhs) (2 ^ 31))
wrapping_timestamps lhs rhs hl hr = wrapping_lem 32 lhs rhs ∙ ground arith

-- With the mask of sequence numbers only the low 16 bits count.
pub wrapping_sequence :
    (lhs rhs : ℕ)
    → lhs < 2 ^ 32
    → rhs < 2 ^ 32
    → let ahead = sub16 (u16 rhs) (u16 lhs) in
      wrapping_compare_less lhs rhs 0xffff ≡ (ltb 0 ahead && ltb ahead (2 ^ 15))
wrapping_sequence lhs rhs hl hr = wrapping_lem 16 lhs rhs ∙ ground arith

-- Distances from a common origin, each less than half the circle, are compared as they are.
pub wrapping-ltb :
    (r d e : ℕ)
    → d < 2 ^ 31
    → e < 2 ^ 31
    → wrapping_compare_less (u32 (r + d)) (u32 (r + e)) timestamp_mask ≡ ltb d e
wrapping-ltb r d e hd he = wrapping_lem 32 (u32 (r + d)) (u32 (r + e)) ∙ ground arith
