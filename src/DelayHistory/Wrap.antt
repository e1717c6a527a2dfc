-- ===== src/DelayHistory/Wrap.antt =====
-- `add_sample` and `shift` over wrapping words are the ideal ones over plain numbers.
use libutp.Base.{ℕ, ◌+◌, ◌%◌, ◌^◌, ◌≤◌, ◌<◌, List, [], ◌∷◌, map, get_or, set}
use libutp.Base.{◌≡◌, refl, ◌∙◌, ap, ap₂, arith, u32, sub64, ltb, if◌then◌else◌, All, min}
use libutp.Base.{length-set, All-set, All-get_or, set-map, get_or-map}
use libutp.Base.{Bool-cases, inl, inr}
use libutp.DelayHistory.{DelayHistory, initialize_base, lower_base, record_delay, least_base}
use libutp.DelayHistory.{next_minute, add_sample, least_delay, delay_base_history}
use libutp.DelayHistory.{minute, timestamp_mask, shift, wrapping_compare_less}
use libutp.DelayHistory.Compare.{wrapping-ltb}
use libutp.DelayHistory.Stages.{wrap-initialize, first_base-IsNear, wrap-lower, least_of-IsNear}
use libutp.DelayHistory.Stages.{wrap-record, excess-IsNear}
use libutp.DelayHistory.Ideal.{
  first_base, least_of, excess, start_minute, ideal_sample, wrap, IsNear,
}

base-le-sample : (a : DelayHistory) (d : ℕ) → (least_of a d).delay_base ≤ d
unfolding least_of
base-le-sample a d = omega arith

-- The search for the earliest entry finds the least distance.
least_base-wrap :
    (r : ℕ) (ds : List ℕ) (best : ℕ)
    → All (λ d. d < 2 ^ 31) ds
    → best < 2 ^ 31
    → least_base (map (λ d. u32 (r + d)) ds) (u32 (r + best)) ≡ u32 (r + least_delay ds best)
unfolding least_base least_delay
least_base-wrap r [] best h hb = refl
least_base-wrap r (d ∷ ds) best h hb =
    ap (least_base (map (λ e. u32 (r + e)) ds)) picks
    ∙ least_base-wrap r ds (min d best) h.1 (omega arith)
  where
    picks :
        (if wrapping_compare_less (u32 (r + d)) (u32 (r + best)) timestamp_mask
          then u32 (r + d)
          else u32 (r + best))
        ≡ u32 (r + min d best)
    picks = ground (arith, wrapping-ltb r d best h.0 hb)

least_delay-lt :
    (n : ℕ) (ds : List ℕ) (best : ℕ) → All (λ d. d < n) ds → best < n → least_delay ds best < n
unfolding least_delay
least_delay-lt n [] best h hb = hb
least_delay-lt n (d ∷ ds) best h hb = least_delay-lt n ds (min d best) h.1 (omega arith)

module _ (r : ℕ) {a : DelayHistory} (v : IsNear a) (d current_ms : ℕ) (hd : d < 2 ^ 31) where
  next_idx : ℕ
  next_idx = (a.delay_base_idx + 1) % delay_base_history

  next_hist : List ℕ
  next_hist = set a.delay_base_hist ((a.delay_base_idx + 1) % delay_base_history) d

  next_hist_near : All (λ e. e < 2 ^ 31) next_hist
  unfolding next_hist
  next_hist_near = All-set _ a.delay_base_hist _ d v.hist_near hd

  wrap-minute :
      next_minute (wrap r a) (u32 (r + d)) current_ms ≡ wrap r (start_minute a d current_ms)
  unfolding next_minute wrap start_minute next_hist
  wrap-minute = rw (
    set-map (λ (e : ℕ). u32 (r + e)) a.delay_base_hist ((a.delay_base_idx + 1) % delay_base_history)
        d,
    get_or-map (λ (e : ℕ). u32 (r + e)) next_hist 0 0 0
        (rw length-set (omega (arith, v.hist_size))),
    least_base-wrap r next_hist (get_or next_hist 0 0) next_hist_near
        (All-get_or _ next_hist 0 0 next_hist_near (omega arith)),
  )

  start_minute-IsNear : IsNear (start_minute a d current_ms)
  unfolding start_minute next_hist
  start_minute-IsNear = record {
    base_near =
        least_delay-lt (2 ^ 31) next_hist _ next_hist_near
          (All-get_or _ next_hist 0 0 next_hist_near (omega arith));
    hist_near = next_hist_near;
    hist_size = length-set a.delay_base_hist _ _ ∙ v.hist_size;
    idx_in = omega arith;
  }

module _ (r : ℕ) {a : DelayHistory} (v : IsNear a) (d current_ms : ℕ) (hd : d < 2 ^ 31) where
  -- the history before the test of the minute
  recorded : DelayHistory
  recorded = excess (least_of (first_base a d) d) d

  recorded-IsNear : IsNear recorded
  unfolding recorded
  recorded-IsNear = excess-IsNear r (least_of-IsNear r (first_base-IsNear r v d hd) d hd) d hd

  wrap-recorded :
      record_delay
        (lower_base (initialize_base (wrap r a) (u32 (r + d))) (u32 (r + d)))
        (u32 (r + d))
      ≡ wrap r recorded
  unfolding recorded
  wrap-recorded =
      rw (wrap-initialize r v d hd, wrap-lower r (first_base-IsNear r v d hd) d hd)
        (wrap-record r (least_of-IsNear r (first_base-IsNear r v d hd) d hd) d hd
          (base-le-sample (first_base a d) d))

  -- While all distances from some origin stay within half the circle, the program's history is the
  -- ideal one: whatever the origin, its base is the wrapped least base, and its delays are exact.
  pub add_sample-wrap :
      add_sample (wrap r a) (u32 (r + d)) current_ms ≡ wrap r (ideal_sample a d current_ms)
  unfolding add_sample ideal_sample recorded wrap
  add_sample-wrap = ground (arith, wrap-recorded, wrap-minute r recorded-IsNear d current_ms hd)

  pub ideal_sample-IsNear : IsNear (ideal_sample a d current_ms)
  unfolding ideal_sample recorded
  ideal_sample-IsNear = elim (Bool-cases (ltb minute (sub64 current_ms a.delay_base_time))) [
    | inl late ↦ rw late (start_minute-IsNear r recorded-IsNear d current_ms hd)
    | inr soon ↦ rw soon recorded-IsNear
  ]

shifted_word : (r offset d : ℕ) → u32 (u32 (r + d) + offset) ≡ u32 (r + offset + d)
shifted_word r offset d = omega arith

shifted_hist :
    (r offset : ℕ) (ds : List ℕ)
    → map (λ d. u32 (d + offset)) (map (λ d. u32 (r + d)) ds) ≡ map (λ d. u32 (r + offset + d)) ds
shifted_hist r offset [] = refl
shifted_hist r offset (d ∷ ds) = ap₂ ◌∷◌ (shifted_word r offset d) (shifted_hist r offset ds)

-- Raising every base by an offset is moving the origin by it.
pub shift-wrap :
    (r : ℕ) (a : DelayHistory) (offset : ℕ) → shift (wrap r a) offset ≡ wrap (r + offset) a
unfolding shift wrap
shift-wrap r a offset = ground (arith, shifted_hist r offset a.delay_base_hist)
