-- ===== src/DelayHistory/Stages.antt =====
-- Each stage of `add_sample` against the ideal stage, and the ranges that it keeps.
use libutp.Base.{ℕ, ◌+◌, ◌%◌, ◌^◌, ◌-◌, ◌≤◌, ◌<◌, get_or, set}
use libutp.Base.{◌≡◌, ◌∙◌, ap, arith, u32, sub32, length}
use libutp.Base.{
  length-set, length-map, All-set, All-get_or, All-const, set-map, get_or-map, map-const,
  set-get_or,
}
use libutp.Base.{Bool-cases, inl, inr}
use libutp.DelayHistory.{DelayHistory, initialize_base, lower_base, record_delay}
use libutp.DelayHistory.{cur_delay_size}
use libutp.DelayHistory.Compare.{wrapping-ltb}
use libutp.DelayHistory.Ideal.{first_base, least_of, excess, wrap, IsNear}

module _ (r : ℕ) {a : DelayHistory} (v : IsNear a) (d : ℕ) (hd : d < 2 ^ 31) where
  pub wrap-initialize : initialize_base (wrap r a) (u32 (r + d)) ≡ wrap r (first_base a d)
  unfolding initialize_base wrap first_base
  wrap-initialize = ground (arith, map-const (λ (e : ℕ). u32 (r + e)) a.delay_base_hist d)

  pub first_base-IsNear : IsNear (first_base a d)
  unfolding first_base
  first_base-IsNear = elim (Bool-cases a.delay_base_initialized) [
    | inl old ↦ simp old v
    | inr new ↦ simp new (record {
      base_near = hd;
      hist_near = All-const _ a.delay_base_hist d hd;
      hist_size = length-map a.delay_base_hist _ ∙ v.hist_size;
      idx_in = v.idx_in;
    })
  ]

  pub wrap-lower : lower_base (wrap r a) (u32 (r + d)) ≡ wrap r (least_of a d)
  unfolding lower_base wrap least_of
  wrap-lower = ground (
    arith,
    get_or-map (λ (e : ℕ). u32 (r + e)) hist idx 0 0 in_range,
    wrapping-ltb r d entry hd (All-get_or _ hist idx 0 v.hist_near (omega arith)),
    wrapping-ltb r d a.delay_base hd v.base_near,
    set-map (λ (e : ℕ). u32 (r + e)) hist idx d,
    set-get_or hist idx 0,
  )
    where
      open a use {delay_base_hist as hist, delay_base_idx as idx}

      entry : ℕ
      entry = get_or hist idx 0

      in_range : idx < length hist
      in_range = omega (arith, v.hist_size, v.idx_in)

  pub least_of-IsNear : IsNear (least_of a d)
  unfolding least_of
  least_of-IsNear = record {
    base_near = omega (arith, v.base_near);
    hist_near = All-set _ a.delay_base_hist _ _ v.hist_near (omega arith);
    hist_size = length-set a.delay_base_hist _ _ ∙ v.hist_size;
    idx_in = v.idx_in;
  }

  pub wrap-record : a.delay_base ≤ d → record_delay (wrap r a) (u32 (r + d)) ≡ wrap r (excess a d)
  unfolding record_delay wrap excess
  wrap-record le =
      ap
        (λ (delay : ℕ). record (wrap r a) {
          cur_delay_hist = set a.cur_delay_hist a.cur_delay_idx delay;
          cur_delay_idx = (a.cur_delay_idx + 1) % cur_delay_size;
        })
        exact
    where
      exact : sub32 (u32 (r + d)) (u32 (r + a.delay_base)) ≡ d - a.delay_base
      exact = omega (arith, v.base_near)

  pub excess-IsNear : IsNear (excess a d)
  unfolding excess
  excess-IsNear = record {
    base_near = v.base_near;
    hist_near = v.hist_near;
    hist_size = v.hist_size;
    idx_in = v.idx_in;
  }
