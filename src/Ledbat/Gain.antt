-- ===== src/Ledbat/Gain.antt =====
-- What `apply_ccontrol` guarantees whatever the arithmetic of `double` does.
use libutp.Base.{ℕ, ◌+◌, ◌/◌, ◌^◌, ◌≤◌, ◌<◌, ◌≡◌, ◌⊎◌, true, false, min, arith}
use libutp.Base.Int.{pos, ◌+ℤ◌, ◌-ℤ◌, ◌≤ℤ◌, neg_ℕ, quot}
use libutp.DelayHistory.{get_value}
use libutp.Ledbat.{Ledbat, min_window_size}
use libutp.Ledbat.Ccontrol.{Double, apply_ccontrol, clamp, penalised_delay}

module _ (d : Double) (c : Ledbat)
    (bytes_acked min_rtt t opt_sndbuf target_delay packet_size : ℕ) where
  abbrev after : Ledbat
  after = (apply_ccontrol d c bytes_acked min_rtt t opt_sndbuf target_delay packet_size).0

  -- If the send buffer is no smaller than the smallest window, the new window lies between the
  -- two. Slow start is never entered. Its threshold changes only when it ends, and then to the
  -- window that was reached; and in slow start's last step the window moves only into its bounds.
  pub apply_ccontrol_lem :
      min_window_size ≤ opt_sndbuf
      → (min_window_size ≤ after.max_window)
        × (after.max_window ≤ opt_sndbuf)
        × (c.slow_start ≡ false → (after.slow_start ≡ false) × (after.ssthresh ≡ c.ssthresh))
        × (after.slow_start ≡ true → after.ssthresh ≡ c.ssthresh)
        × (c.slow_start ≡ true
            → after.slow_start ≡ false
            → ((after.ssthresh ≡ c.ssthresh) ⊎ (after.ssthresh ≡ c.max_window))
              × (after.max_window ≡ clamp c.max_window min_window_size opt_sndbuf))
        × (after.cur_window ≡ c.cur_window)
  unfolding apply_ccontrol
  apply_ccontrol_lem h = ground arith

-- The delay used by the control is at most the round trip and at most every delay of the history
-- when the clocks do not drift apart by more than 200 000 microseconds in five seconds; otherwise
-- a seventh of the excess is added, and nothing else.
penalised_delay_lem :
    (c : Ledbat) (min_rtt : ℕ)
    → min_rtt < 2 ^ 31
    → (neg_ℕ 200000 ≤ℤ c.clock_drift
        → penalised_delay c min_rtt ≡ pos (min (get_value c.our_hist) min_rtt))
      × ((excess : ℕ)
          → c.clock_drift ≡ neg_ℕ (200001 + excess)
          → penalised_delay c min_rtt ≡ pos (min (get_value c.our_hist) min_rtt + (excess + 1) / 7))
unfolding penalised_delay quot ◌-ℤ◌ ◌+ℤ◌
penalised_delay_lem c min_rtt h = ground arith
