-- ===== src/DelayHistory/Delays.antt =====
-- The delay that one sample leaves, whatever the clocks say, and the least of those kept.
use libutp.Base.{ℕ, ◌^◌, ◌≤◌, ◌<◌, Bool, true, false, List, [], ◌∷◌, ◌≡◌, refl}
use libutp.Base.{arith, sub32, All, min, ◌⊎◌, inl, inr, length, get_or, if◌then◌else◌}
use libutp.Base.{get_or-set_self, Bool-cases, leb, leb→le, leb-false, suc}
use libutp.DelayHistory.{
  DelayHistory, add_sample, get_value, least_delay, uint_max, initialize_base,
}
use libutp.DelayHistory.{lower_base, record_delay, next_minute, wrapping_compare_less}
use libutp.DelayHistory.{timestamp_mask}
use libutp.DelayHistory.Compare.{wrapping_timestamps}

cur_delay_hist_lem :
    (h : DelayHistory) (sample current_ms : ℕ)
    → (add_sample h sample current_ms).cur_delay_hist
      ≡ (record_delay (lower_base (initialize_base h sample) sample) sample).cur_delay_hist
unfolding add_sample next_minute
cur_delay_hist_lem h sample current_ms = ground arith

module _ (sample base : ℕ) (hs : sample < 2 ^ 32) (hb : base < 2 ^ 32) where
  abbrev is_earlier : Bool
  is_earlier = wrapping_compare_less sample base timestamp_mask

  delay_cases :
      let delay = sub32 sample (if is_earlier then sample else base) in
      (delay ≡ (if is_earlier then 0 else sub32 sample base)) × (delay ≤ 2 ^ 31)
  delay_cases = ground (arith, wrapping_timestamps sample base hs hb)

delay_stored :
    (h : DelayHistory) (sample : ℕ)
    → h.cur_delay_idx < length h.cur_delay_hist
    → let base = if h.delay_base_initialized then h.delay_base else sample in
      get_or
        (record_delay (lower_base (initialize_base h sample) sample) sample).cur_delay_hist
        h.cur_delay_idx
        0
      ≡ sub32 sample (if wrapping_compare_less sample base timestamp_mask then sample else base)
unfolding initialize_base lower_base record_delay
delay_stored h sample hi = elim (Bool-cases h.delay_base_initialized) [
  | inl old ↦ simp old (get_or-set_self h.cur_delay_hist h.cur_delay_idx _ 0 hi)
  | inr new ↦ simp new (get_or-set_self h.cur_delay_hist h.cur_delay_idx _ 0 hi)
]

-- A sample that is earlier than the base counts as no delay; any other counts by its distance from
-- the base, which is at most half the circle. Before the first sample the base is the sample.
pub add_sample_delay :
    (h : DelayHistory) (sample current_ms : ℕ)
    → sample < 2 ^ 32
    → h.delay_base < 2 ^ 32
    → h.cur_delay_idx < length h.cur_delay_hist
    → let base = if h.delay_base_initialized then h.delay_base else sample in
      let delay = get_or (add_sample h sample current_ms).cur_delay_hist h.cur_delay_idx 0 in
      (delay ≡ (if wrapping_compare_less sample base timestamp_mask then 0 else sub32 sample base))
      × (delay ≤ 2 ^ 31)
add_sample_delay h sample current_ms hs hb hi =
    rw (cur_delay_hist_lem h sample current_ms, delay_stored h sample hi)
      (delay_cases sample _ hs (first_base h.delay_base_initialized))
  where
    first_base : (b : Bool) → (if b then h.delay_base else sample) < 2 ^ 32
    first_base true = hb
    first_base false = hs

least_delay_lem :
    (ds : List ℕ) (value : ℕ)
    → (least_delay ds value ≤ value) × All (λ d. least_delay ds value ≤ d) ds
unfolding least_delay
least_delay_lem [] value = (omega arith, tt)
least_delay_lem (d ∷ ds) value =
    let (below, rest) = least_delay_lem ds (min d value) in (omega arith, (omega arith, rest))

least_delay-reached :
    (ds : List ℕ) (value : ℕ)
    → (least_delay ds value ≡ value)
      ⊎ ((i : ℕ) × (i < length ds) × (get_or ds i 0 ≡ least_delay ds value))
unfolding least_delay
least_delay-reached [] value = inl refl
least_delay-reached (d ∷ ds) value = elim (least_delay-reached ds (min d value)) [
  | inr (i, lt, e) ↦ inr (suc i, omega arith, e)
  | inl e ↦ elim (Bool-cases (leb d value)) [
    | inl le ↦ inr (0, omega arith, omega (arith, leb→le _ _ le))
    | inr gt ↦ inl (omega (arith, leb-false _ _ gt))
  ]
]

least_kept :
    (ds : List ℕ)
    → All (λ d. d < 2 ^ 32) ds
    → 0 < length ds
    → (i : ℕ) × (i < length ds) × (get_or ds i 0 ≡ least_delay ds uint_max)
least_kept [] words some_delay = absurd (omega arith)
least_kept (d ∷ ds) words some_delay = elim (least_delay-reached (d ∷ ds) uint_max) [
  | inr found ↦ found
  | inl top ↦ (0, omega arith, omega (arith, words.0, (least_delay_lem (d ∷ ds) uint_max).1.0))
]

-- Over delays that are words, `get_value` is a lower bound of the delays kept, and, if there are
-- any, one of them.
get_value_lem :
    (h : DelayHistory)
    → All (λ d. d < 2 ^ 32) h.cur_delay_hist
    → 0 < length h.cur_delay_hist
    → All (λ d. get_value h ≤ d) h.cur_delay_hist
      × ((i : ℕ) × (i < length h.cur_delay_hist) × (get_or h.cur_delay_hist i 0 ≡ get_value h))
unfolding get_value
get_value_lem h words some_delay =
    ((least_delay_lem h.cur_delay_hist uint_max).1, least_kept h.cur_delay_hist words some_delay)
