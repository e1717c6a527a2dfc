-- ===== src/Ledbat/Ccontrol.antt =====
-- src/utp/ledbat.cpp, `apply_ccontrol`: one acknowledgement's effect on the congestion window.
-- The arithmetic of `double` is a parameter: a type with the operations that the function uses. No
-- law of it is assumed, so what is proved holds for rounding, infinities and NaN.
use libutp.Base.{ℕ, ◌+◌, Bool, false, ◌&&◌, min, max}
use libutp.Base.{u32, u64, sub64, ltb, if◌then◌else◌}
use libutp.Base.Int.{ℤ, pos, ◌+ℤ◌, ◌-ℤ◌, ltb_ℤ, neg_ℕ, quot, signed32, signed64}
use libutp.DelayHistory.{get_value}
use libutp.Ledbat.{Ledbat, min_window_size}

-- What the function does with a `double`. `above_zero` is `x > 0`; `to_size` is the conversion to
-- `size_t` and `to_int` that to `int`; `tenths` is the product with 0.9.
pub record Double : Type 1 where
  pub W : Type 0
  pub of_int : ℤ → W
  pub mul : W → W → W
  pub div : W → W → W
  pub add : W → W → W
  pub above_zero : W → Bool
  pub to_size : W → ℕ
  pub to_int : W → ℤ
  pub tenths : W → W

abbrev pub max_cwnd_increase_bytes_per_rtt : ℕ
max_cwnd_increase_bytes_per_rtt = 3000

-- `std::clamp` with its bounds in order.
unfoldable pub clamp : ℕ → ℕ → ℕ → ℕ
clamp value lo hi = if ltb value lo then lo else if ltb hi value then hi else value

-- The delay that the peer measured, at most the round trip's, with the penalty for a slow clock.
unfoldable pub penalised_delay : Ledbat → ℕ → ℤ
penalised_delay c min_rtt =
    let our_delay = signed32 (min (get_value c.our_hist) (u32 min_rtt)) in
    if ltb_ℤ c.clock_drift (neg_ℕ 200000)
    then our_delay +ℤ quot (pos 0 -ℤ c.clock_drift -ℤ pos 200000) 7
    else our_delay

unfoldable pub target_of : ℕ → ℤ
target_of target_delay =
    let target = signed32 (u32 target_delay) in if ltb_ℤ (pos 0) target then target else pos 100000

-- More than a second since the window was last the limit.
unfoldable pub is_rate_limited : Ledbat → ℕ → Bool
is_rate_limited c current_ms =
    ltb_ℤ (pos 1000) (signed64 (sub64 current_ms c.last_maxed_out_window))

module _ (d : Double) where
  open d use {W, of_int, mul, div, add, above_zero, to_size, to_int, tenths}

  unfoldable pub window_factor : Ledbat → ℕ → W
  window_factor c bytes_acked =
      div (of_int (pos (min bytes_acked c.max_window)))
        (of_int (pos (max c.max_window bytes_acked)))

  unfoldable pub scaled_gain : Ledbat → ℕ → ℤ → ℤ → ℕ → W
  scaled_gain c bytes_acked our_delay target current_ms =
      let delay_factor = div (of_int (target -ℤ our_delay)) (of_int target) in
      let gain =
        mul (mul (of_int (pos max_cwnd_increase_bytes_per_rtt)) (window_factor c bytes_acked))
          delay_factor in
      if above_zero gain && is_rate_limited c current_ms then of_int (pos 0) else gain

  unfoldable pub ledbat_cwnd : Ledbat → W → ℕ
  ledbat_cwnd c gain =
      if ltb (u64 (c.max_window + to_size gain)) min_window_size
      then min_window_size
      else to_size (add (of_int (pos c.max_window)) gain)

  -- The choice between slow start and congestion avoidance.
  unfoldable pub choose_window : Ledbat → ℕ → ℕ → ℤ → ℤ → ℕ → Ledbat
  choose_window c bytes_acked packet_size our_delay target cwnd =
      let ss_cwnd =
        u64
          (c.max_window + to_size (mul (window_factor c bytes_acked) (of_int (pos packet_size)))) in
      if c.slow_start
      then if ltb c.ssthresh ss_cwnd
        then record c { slow_start = false }
        else if ltb_ℤ (to_int (tenths (of_int target))) our_delay
        then record c { slow_start = false; ssthresh = c.max_window }
        else record c { max_window = max ss_cwnd cwnd }
      else record c { max_window = cwnd }

  unfoldable pub apply_ccontrol : Ledbat → ℕ → ℕ → ℕ → ℕ → ℕ → ℕ → Ledbat × ℤ
  unfolding penalised_delay target_of choose_window scaled_gain window_factor ledbat_cwnd clamp
  apply_ccontrol c bytes_acked min_rtt current_ms opt_sndbuf target_delay packet_size =
      let our_delay = penalised_delay c min_rtt in
      let target = target_of target_delay in
      let cwnd = ledbat_cwnd c (scaled_gain c bytes_acked our_delay target current_ms) in
      let chosen = choose_window c bytes_acked packet_size our_delay target cwnd in
      (record chosen { max_window = clamp chosen.max_window min_window_size opt_sndbuf }, our_delay)
