-- ===== src/Ledbat/Tests.antt =====
-- Runs of the controller, and its theorems at concrete states.
use libutp.Base.{ℕ, ◌+◌, ◌*◌, ◌/◌, ◌≤◌, ◌<◌, ◌≡◌, ◌≢◌, ◌⊎◌, arith, true, false, min, max, u64}
use libutp.Base.Int.{ℤ, pos, negsuc, neg_ℕ, pos_part, quot}
use libutp.Ledbat.{Ledbat, initial, min_window_size, on_rto_timeout}
use libutp.Ledbat.{update_rtt}
use libutp.Ledbat.Ccontrol.{Double, apply_ccontrol, clamp}
use libutp.Ledbat.Gain.{apply_ccontrol_lem}
use libutp.Ledbat.Window.{on_rto_timeout_lem}
use libutp.Ledbat.Rtt.{distance, update_rtt_lem}

abbrev busy : Ledbat
busy = record initial {
  max_window = 9000;
  cur_window = 2800;
  rtt = 80;
  rtt_var = 40;
  current_delay_sum = neg_ℕ 900;
  current_delay_samples = 4;
  average_delay = pos 100;
  average_delay_base = 50;
  average_sample_time = 6000;
}

on_rto_timeout_lem_example :
    let c = on_rto_timeout busy 1400 0 in
    (1400 ≤ c.max_window)
    × (c.max_window ≤ max busy.max_window 1400)
    × (◌≡◌ {A = ℕ} 0 0
        → 1400 < busy.max_window
        → (c.max_window ≡ max (busy.max_window * 2 / 3) 1400) × (c.slow_start ≡ busy.slow_start))
    × ((0 < 0) ⊎ (busy.max_window ≤ 1400) → (c.max_window ≡ 1400) × (c.slow_start ≡ true))
on_rto_timeout_lem_example = on_rto_timeout_lem busy 1400 0 (omega arith) (omega arith)

update_rtt_lem_example :
    let c = update_rtt busy 120 1000 in
    (busy.rtt ≡ 0 → (c.rtt ≡ 120) × (c.rtt_var ≡ 120 / 2))
    × (busy.rtt ≢ 0
        → (min busy.rtt 120 ≤ c.rtt)
          × (c.rtt ≤ max busy.rtt 120)
          × (min busy.rtt_var (distance busy.rtt 120) ≤ c.rtt_var)
          × (c.rtt_var ≤ max busy.rtt_var (distance busy.rtt 120)))
    × (c.rto ≡ max (c.rtt + c.rtt_var * 4) 1000)
    × (c.retransmit_timeout ≡ c.rto)
    × (c.rto_timeout ≡ u64 (1000 + c.rto))
update_rtt_lem_example = update_rtt_lem busy 120 1000 (omega arith) (omega arith) (omega arith)

-- Integers in place of `double`, with rounding division.
abbrev whole_numbers : Double
whole_numbers = record {
  W = ℤ;
  of_int = λ a. a;
  mul = λ a b. pos (pos_part a * pos_part b);
  div = λ a b. quot a (pos_part b);
  add = λ a b. pos (pos_part a + pos_part b);
  above_zero = λ a. elim a [ pos n ↦ true | negsuc n ↦ false ];
  to_size = pos_part;
  to_int = λ a. a;
  tenths = λ a. quot (pos (9 * pos_part a)) 10;
}

apply_ccontrol_lem_example :
    let c = (apply_ccontrol whole_numbers busy 1400 90000 500 100000 100000 1400).0 in
    (min_window_size ≤ c.max_window)
    × (c.max_window ≤ 100000)
    × (busy.slow_start ≡ false → (c.slow_start ≡ false) × (c.ssthresh ≡ busy.ssthresh))
    × (c.slow_start ≡ true → c.ssthresh ≡ busy.ssthresh)
    × (busy.slow_start ≡ true
        → c.slow_start ≡ false
        → ((c.ssthresh ≡ busy.ssthresh) ⊎ (c.ssthresh ≡ busy.max_window))
          × (c.max_window ≡ clamp busy.max_window min_window_size 100000))
    × (c.cur_window ≡ busy.cur_window)
apply_ccontrol_lem_example =
    apply_ccontrol_lem whole_numbers busy 1400 90000 500 100000 100000 1400 (omega arith)
