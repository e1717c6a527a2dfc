-- ===== src/DelayHistory/Tests.antt =====
-- Runs of the delay history, and its theorems at concrete clocks.
use libutp.Base.{
  ℕ, ◌+◌, ◌^◌, ◌≤◌, ◌≡◌, refl, arith, List, [], ◌∷◌, sub32, get_or, true, false, if◌then◌else◌,
}
use libutp.DelayHistory.{DelayHistory, fresh, add_sample, get_value, shift}
use libutp.DelayHistory.{wrapping_compare_less, timestamp_mask}
use libutp.DelayHistory.{
  initialize_base, lower_base, record_delay, next_minute, least_base, least_delay,
}
use libutp.DelayHistory.Ideal.{wrap}
use libutp.DelayHistory.Wrap.{shift-wrap}
use libutp.DelayHistory.Session.{Sample, add_samples, seen}
use libutp.DelayHistory.Delays.{add_sample_delay}

-- The origin lies just below the wrap, and the samples beyond it.
abbrev samples : List Sample
samples = (300, 10) ∷ (100, 20) ∷ (250, 70000) ∷ (400, 70010) ∷ []

abbrev origin : ℕ
origin = 0xffff_ff00

delays_run : get_value (add_samples (fresh 0) (seen origin samples)) ≡ 0
unfolding add_samples add_sample initialize_base lower_base record_delay next_minute least_base
    get_value least_delay wrapping_compare_less
delays_run = refl

shift-wrap_example : shift (wrap origin (fresh 3)) 0x200 ≡ wrap (origin + 0x200) (fresh 3)
shift-wrap_example = shift-wrap origin (fresh 3) 0x200

abbrev started : DelayHistory
started = record (fresh 0) { delay_base = 0x400; delay_base_initialized = true }

-- A sample just below zero counts as earlier than a base just above it.
add_sample_delay_example :
    let base = if started.delay_base_initialized then started.delay_base else 0xffff_ff00 in
    let delay = get_or (add_sample started 0xffff_ff00 10).cur_delay_hist started.cur_delay_idx 0 in
    (delay ≡ (
      if wrapping_compare_less 0xffff_ff00 base timestamp_mask then 0 else sub32 0xffff_ff00 base))
    × (delay ≤ 2 ^ 31)
add_sample_delay_example =
    add_sample_delay started 0xffff_ff00 10 (omega arith) (omega arith) (omega arith)

earlier_across_the_wrap :
    (wrapping_compare_less 0xffff_ff00 0x400 timestamp_mask ≡ true)
    × (wrapping_compare_less 0x400 0xffff_ff00 timestamp_mask ≡ false)
unfolding wrapping_compare_less
earlier_across_the_wrap = (refl, refl)
