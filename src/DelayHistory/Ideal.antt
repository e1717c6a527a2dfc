-- ===== src/DelayHistory/Ideal.antt =====
-- The delay history over numbers that do not wrap. Its samples are distances from an origin `r`
-- that the program does not know: the program sees each only as `r + d` modulo 2 ^ 32.
use libutp.Base.{ℕ, ◌+◌, ◌%◌, ◌^◌, ◌-◌, ◌<◌, true, map, get_or, set}
use libutp.Base.{◌≡◌, u32, sub64, ltb, if◌then◌else◌, length, All, min}
use libutp.DelayHistory.{DelayHistory}
use libutp.DelayHistory.{least_delay, cur_delay_size, delay_base_history}
use libutp.DelayHistory.{minute}

unfoldable pub first_base : DelayHistory → ℕ → DelayHistory
first_base h d = if h.delay_base_initialized then h else record h {
  delay_base_hist = map (λ _. d) h.delay_base_hist;
  delay_base = d;
  delay_base_initialized = true;
}

unfoldable pub least_of : DelayHistory → ℕ → DelayHistory
least_of h d = record h {
  delay_base_hist =
      set h.delay_base_hist h.delay_base_idx (min d (get_or h.delay_base_hist h.delay_base_idx 0));
  delay_base = min d h.delay_base;
}

unfoldable pub excess : DelayHistory → ℕ → DelayHistory
excess h d = record h {
  cur_delay_hist = set h.cur_delay_hist h.cur_delay_idx (d - h.delay_base);
  cur_delay_idx = (h.cur_delay_idx + 1) % cur_delay_size;
}

unfoldable pub start_minute : DelayHistory → ℕ → ℕ → DelayHistory
start_minute h d current_ms =
    let idx = (h.delay_base_idx + 1) % delay_base_history in
    let hist = set h.delay_base_hist idx d in
    record h {
      delay_base_time = current_ms;
      delay_base_idx = idx;
      delay_base_hist = hist;
      delay_base = least_delay hist (get_or hist 0 0);
    }

-- The base is the least of the minutes kept, and each delay is an exact difference from it.
unfoldable pub ideal_sample : DelayHistory → ℕ → ℕ → DelayHistory
ideal_sample h d current_ms =
    let recorded = excess (least_of (first_base h d) d) d in
    if ltb minute (sub64 current_ms h.delay_base_time)
    then start_minute recorded d current_ms
    else recorded

-- What the program stores for an ideal history, at the origin `r`.
unfoldable pub wrap : ℕ → DelayHistory → DelayHistory
wrap r a = record a {
  delay_base = u32 (r + a.delay_base);
  delay_base_hist = map (λ d. u32 (r + d)) a.delay_base_hist;
}

-- All distances lie within half the circle, and the indices in their arrays.
pub record IsNear (a : DelayHistory) : Type 0 where
  pub base_near : a.delay_base < 2 ^ 31
  pub hist_near : All (λ d. d < 2 ^ 31) a.delay_base_hist
  pub hist_size : length a.delay_base_hist ≡ delay_base_history
  pub idx_in : a.delay_base_idx < delay_base_history
