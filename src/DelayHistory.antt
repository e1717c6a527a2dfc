-- ===== src/DelayHistory.antt =====
-- src/utp/delay_history.hpp: the delay base of the last minutes and the last three queueing delays.
-- Times are `uint64_t` milliseconds, delays `uint32_t` microseconds; both wrap.
pub mod Compare
pub mod Ideal
pub mod Stages
pub mod Wrap
pub mod Session
pub mod Delays
mod Tests
use libutp.Base.{
  ℕ, ◌+◌, ◌%◌, ◌^◌, ◌-◌, Bool, true, false, List, [], ◌∷◌, map, get_or, set, replicate,
}
use libutp.Base.{u32, sub32, sub64, bit_and, ltb, if◌then◌else◌, min}

abbrev pub cur_delay_size : ℕ
cur_delay_size = 3

abbrev pub delay_base_history : ℕ
delay_base_history = 13

abbrev pub timestamp_mask : ℕ
timestamp_mask = 0xffff_ffff

abbrev pub uint_max : ℕ
uint_max = 2 ^ 32 - 1

pub wrapping_compare_less : ℕ → ℕ → ℕ → Bool
wrapping_compare_less lhs rhs mask =
    let dist_down = bit_and (sub32 lhs rhs) mask in
    let dist_up = bit_and (sub32 rhs lhs) mask in ltb dist_up dist_down

pub record DelayHistory : Type 0 where
  pub delay_base : ℕ
  pub cur_delay_hist : List ℕ
  pub cur_delay_idx : ℕ
  pub delay_base_hist : List ℕ
  pub delay_base_idx : ℕ
  pub delay_base_time : ℕ
  pub delay_base_initialized : Bool

-- The constructor; `clear` sets the same fields and the time.
abbrev pub fresh : ℕ → DelayHistory
fresh current_ms = record {
  delay_base = 0;
  cur_delay_hist = replicate cur_delay_size 0;
  cur_delay_idx = 0;
  delay_base_hist = replicate delay_base_history 0;
  delay_base_idx = 0;
  delay_base_time = current_ms;
  delay_base_initialized = false;
}

pub clear : DelayHistory → ℕ → DelayHistory
clear h current_ms = fresh current_ms

pub shift : DelayHistory → ℕ → DelayHistory
shift h offset = record h {
  delay_base_hist = map (λ d. u32 (d + offset)) h.delay_base_hist;
  delay_base = u32 (h.delay_base + offset);
}

-- The first sample becomes every entry of the base history.
pub initialize_base : DelayHistory → ℕ → DelayHistory
initialize_base h sample = if h.delay_base_initialized then h else record h {
  delay_base_hist = map (λ _. sample) h.delay_base_hist;
  delay_base = sample;
  delay_base_initialized = true;
}

-- The entry of the current minute, then the base, each replaced by a smaller sample.
pub lower_base : DelayHistory → ℕ → DelayHistory
lower_base h sample =
    let entry = get_or h.delay_base_hist h.delay_base_idx 0 in
    record h {
      delay_base_hist =
          if wrapping_compare_less sample entry timestamp_mask
          then set h.delay_base_hist h.delay_base_idx sample
          else h.delay_base_hist;
      delay_base =
          if wrapping_compare_less sample h.delay_base timestamp_mask then sample else h.delay_base;
    }

pub record_delay : DelayHistory → ℕ → DelayHistory
record_delay h sample =
    let delay = sub32 sample h.delay_base in
    record h {
      cur_delay_hist = set h.cur_delay_hist h.cur_delay_idx delay;
      cur_delay_idx = (h.cur_delay_idx + 1) % cur_delay_size;
    }

-- The loop that looks for the smallest entry, with the smallest so far.
pub least_base : List ℕ → ℕ → ℕ
least_base [] best = best
least_base (d ∷ ds) best =
    least_base ds (if wrapping_compare_less d best timestamp_mask then d else best)

-- Once a minute the next entry starts over, and the base is taken from all entries.
pub next_minute : DelayHistory → ℕ → ℕ → DelayHistory
next_minute h sample current_ms =
    let idx = (h.delay_base_idx + 1) % delay_base_history in
    let hist = set h.delay_base_hist idx sample in
    record h {
      delay_base_time = current_ms;
      delay_base_idx = idx;
      delay_base_hist = hist;
      delay_base = least_base hist (get_or hist 0 0);
    }

abbrev pub minute : ℕ
minute = 60000

pub add_sample : DelayHistory → ℕ → ℕ → DelayHistory
add_sample h sample current_ms =
    let recorded = record_delay (lower_base (initialize_base h sample) sample) sample in
    if ltb minute (sub64 current_ms h.delay_base_time)
    then next_minute recorded sample current_ms
    else recorded

pub least_delay : List ℕ → ℕ → ℕ
least_delay [] value = value
least_delay (d ∷ ds) value = least_delay ds (min d value)

pub get_value : DelayHistory → ℕ
get_value h = least_delay h.cur_delay_hist uint_max
