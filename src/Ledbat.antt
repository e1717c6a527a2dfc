-- ===== src/Ledbat.antt =====
-- src/utp/ledbat.hpp and src/utp/ledbat.cpp: the congestion window, the RTT estimate with the
-- retransmission timer, and the estimate of the clocks' drift. `apply_ccontrol` stands in
-- Ledbat/Ccontrol.antt. `size_t` and `uint64` are numbers below 2 ^ 64, `uint` below 2 ^ 32; an
-- `int`, `int32` or `int64` is an integer.
pub mod Ccontrol
pub mod Gain
pub mod Window
pub mod Rtt
pub mod Drift
pub mod Timers
mod Tests
use libutp.Base.{ℕ, ◌+◌, ◌-◌, ◌*◌, ◌/◌, ◌%◌, ◌^◌, Bool, true, false, not, ◌&&◌, min, max}
use libutp.Base.{u16, u32, u64, sub32, sub64, ltb, leb, ◌==◌, if◌then◌else◌}
use libutp.Base.Int.{ℤ, pos, negsuc, ◌+ℤ◌, ◌-ℤ◌, ltb_ℤ, leb_ℤ, neg_ℕ, scale, quot, abs_ℤ}
use libutp.Base.Int.{signed32, signed64, word32, cast32}
use libutp.DelayHistory.{DelayHistory, fresh, clear, add_sample}

abbrev pub min_window_size : ℕ
min_window_size = 10

abbrev pub max_window_decay : ℕ
max_window_decay = 100

pub record Ledbat : Type 0 where
  pub max_window : ℕ
  pub cur_window : ℕ
  pub slow_start : Bool
  pub ssthresh : ℕ
  pub rtt : ℕ
  pub rtt_var : ℕ
  pub rto : ℕ
  pub rtt_hist : DelayHistory
  pub retransmit_timeout : ℕ
  pub retransmit_count : ℕ
  pub rto_timeout : ℕ
  pub zerowindow_time : ℕ
  pub our_hist : DelayHistory
  pub their_hist : DelayHistory
  pub average_delay : ℤ
  pub current_delay_sum : ℤ
  pub current_delay_samples : ℕ
  pub average_delay_base : ℕ
  pub average_sample_time : ℕ
  pub clock_drift : ℤ
  pub clock_drift_raw : ℤ
  pub last_maxed_out_window : ℕ
  pub last_rwin_decay : ℤ

-- The members' initial values.
abbrev pub initial : Ledbat
initial = record {
  max_window = 0;
  cur_window = 0;
  slow_start = true;
  ssthresh = 0;
  rtt = 0;
  rtt_var = 800;
  rto = 3000;
  rtt_hist = fresh 0;
  retransmit_timeout = 0;
  retransmit_count = 0;
  rto_timeout = 0;
  zerowindow_time = 0;
  our_hist = fresh 0;
  their_hist = fresh 0;
  average_delay = pos 0;
  current_delay_sum = pos 0;
  current_delay_samples = 0;
  average_delay_base = 0;
  average_sample_time = 0;
  clock_drift = pos 0;
  clock_drift_raw = pos 0;
  last_maxed_out_window = 0;
  last_rwin_decay = pos 0;
}

-- The estimate of a further round trip: the variation moves a quarter of the way to the distance
-- from the mean, the mean an eighth of the way to the sample.
unfoldable pub next_rtt_var : ℕ → ℕ → ℕ → ℕ
next_rtt_var rtt rtt_var ertt =
    let delta = signed32 rtt -ℤ signed32 ertt in
    word32 (pos rtt_var +ℤ quot (pos (abs_ℤ delta) -ℤ signed32 rtt_var) 4)

unfoldable pub next_rtt : ℕ → ℕ → ℕ
next_rtt rtt ertt = u32 (sub32 rtt (rtt / 8) + ertt / 8)

unfoldable pub sample_rtt : Ledbat → ℕ → ℕ → Ledbat
sample_rtt c ertt current_ms =
    if c.rtt == 0 then record c { rtt = ertt; rtt_var = ertt / 2 } else record c {
      rtt_var = next_rtt_var c.rtt c.rtt_var ertt;
      rtt = next_rtt c.rtt ertt;
      rtt_hist = add_sample c.rtt_hist ertt current_ms;
    }

unfoldable pub restart_rto : Ledbat → ℕ → Ledbat
restart_rto c current_ms =
    let rto = max (u32 (c.rtt + u32 (c.rtt_var * 4))) 1000 in
    record c { rto = rto; retransmit_timeout = rto; rto_timeout = u64 (current_ms + rto) }

unfoldable pub update_rtt : Ledbat → ℕ → ℕ → Ledbat
update_rtt c ertt current_ms = restart_rto (sample_rtt c ertt current_ms) current_ms

-- The signed distance from the base to a delay, by the shorter way round.
unfoldable pub delay_offset : ℕ → ℕ → ℤ
delay_offset base actual_delay =
    let dist_down = sub32 base actual_delay in
    let dist_up = sub32 actual_delay base in
    if ltb dist_up dist_down then pos dist_up else neg_ℕ dist_down

unfoldable pub take_delay : Ledbat → ℕ → Ledbat
take_delay c actual_delay =
    let base = if c.average_delay_base == 0 then actual_delay else c.average_delay_base in
    record c {
      average_delay_base = base;
      current_delay_sum = c.current_delay_sum +ℤ delay_offset base actual_delay;
      current_delay_samples = c.current_delay_samples + 1;
    }

-- How far two averages are moved, so that the range between them reaches zero.
unfoldable pub normalising : ℤ → ℤ → ℤ
normalising prev average =
    let min_sample = if ltb_ℤ average prev then average else prev in
    let max_sample = if ltb_ℤ prev average then average else prev in
    if ltb_ℤ (pos 0) min_sample
    then pos 0 -ℤ min_sample
    else if ltb_ℤ max_sample (pos 0)
    then pos 0 -ℤ max_sample
    else pos 0

-- The end of a slot of five seconds.
unfoldable pub end_slot : Ledbat → Ledbat
end_slot c =
    let prev = c.average_delay in
    let average = cast32 (quot c.current_delay_sum c.current_delay_samples) in
    let adjust = normalising prev average in
    let drift = (average +ℤ adjust) -ℤ (prev +ℤ adjust) in
    record c {
      average_delay = average +ℤ adjust;
      average_sample_time = u64 (c.average_sample_time + 5000);
      current_delay_sum = pos 0;
      current_delay_samples = 0;
      average_delay_base = word32 (pos c.average_delay_base -ℤ adjust);
      clock_drift = cast32 (quot (scale 7 c.clock_drift +ℤ drift) 8);
      clock_drift_raw = drift;
    }

unfoldable pub update_delay_average : Ledbat → ℕ → ℕ → Ledbat
update_delay_average c actual_delay current_ms =
    let taken = take_delay c actual_delay in
    if ltb_ℤ (signed64 c.average_sample_time) (signed64 current_ms) then end_slot taken else taken

-- `msec - last_rwin_decay_ >= MAX_WINDOW_DECAY`
unfoldable pub can_decay_win : Ledbat → ℤ → Bool
can_decay_win c msec = leb_ℤ (pos max_window_decay) (msec -ℤ c.last_rwin_decay)

-- `(size_t)(max_window_ * 0.5)` is exact below 2 ^ 53.
unfoldable pub maybe_decay_win : Ledbat → ℕ → Ledbat
maybe_decay_win c current_ms =
    let halved = max (c.max_window / 2) min_window_size in
    if can_decay_win c (signed64 current_ms)
    then record c {
      max_window = halved;
      last_rwin_decay = signed64 current_ms;
      slow_start = false;
      ssthresh = halved;
    }
    else c

unfoldable pub add_in_flight : Ledbat → ℕ → Ledbat
add_in_flight c bytes = record c { cur_window = u64 (c.cur_window + bytes) }

unfoldable pub remove_in_flight : Ledbat → ℕ → Ledbat
remove_in_flight c bytes = record c { cur_window = sub64 c.cur_window bytes }

unfoldable pub mark_window_full : Ledbat → ℕ → Ledbat
mark_window_full c current_ms = record c { last_maxed_out_window = current_ms }

unfoldable pub can_send : Ledbat → ℕ → ℕ → ℕ → Bool
can_send c bytes max_window_user opt_sndbuf =
    leb (u64 (c.cur_window + bytes)) (min (min c.max_window opt_sndbuf) max_window_user)

unfoldable pub on_rto_timeout : Ledbat → ℕ → ℕ → Ledbat
on_rto_timeout c packet_size cur_window_packets =
    if cur_window_packets == 0 && ltb_ℤ (signed64 packet_size) (signed64 c.max_window)
    then record c { max_window = max (u64 (c.max_window * 2) / 3) packet_size }
    else record c { max_window = packet_size; slow_start = true }

unfoldable pub set_initial_rto : Ledbat → ℕ → Ledbat
set_initial_rto c current_ms = record c {
  retransmit_timeout = c.rto;
  rto_timeout = u64 (current_ms + c.rto);
}

unfoldable pub is_rto_expired : Ledbat → ℕ → Bool
is_rto_expired c current_ms =
    ltb 0 c.rto_timeout && leb_ℤ (pos 0) (signed64 (sub64 current_ms c.rto_timeout))

unfoldable pub init_delay_histories : Ledbat → ℕ → Ledbat
init_delay_histories c current_ms = record c {
  our_hist = clear c.our_hist current_ms;
  their_hist = clear c.their_hist current_ms;
  rtt_hist = clear c.rtt_hist current_ms;
}

unfoldable pub init_timing : Ledbat → ℕ → Ledbat
init_timing c current_ms = record c {
  average_sample_time = u64 (current_ms + 5000);
  last_rwin_decay = signed64 current_ms -ℤ pos max_window_decay;
}
