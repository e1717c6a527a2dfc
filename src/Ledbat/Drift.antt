-- ===== src/Ledbat/Drift.antt =====
-- The long-term average of the delay and the drift of the clocks.
use libutp.Base.{ℕ, ◌+◌, ◌-◌, ◌*◌, ◌^◌, ◌≤◌, ◌<◌, ◌≡◌, refl, arith}
use libutp.Base.{Bool-cases, ltb, ltb-false, tests, inl, inr}
use libutp.Base.Int.{
  ℤ, signed64, ltb_ℤ, pos, negsuc, ◌+ℤ◌, quot, word32, pos_part, neg_part, +ℤ_parts_le,
}
use libutp.Base.{◌==◌}
use libutp.Ledbat.{Ledbat, delay_offset, take_delay, end_slot, update_delay_average}

-- An offset lies within half the circle, and leads from the base to the delay.
delay_offset_lem :
    (base actual_delay : ℕ)
    → base < 2 ^ 32
    → actual_delay < 2 ^ 32
    → (pos_part (delay_offset base actual_delay) < 2 ^ 31)
      × (neg_part (delay_offset base actual_delay) ≤ 2 ^ 31)
      × (word32 (pos base +ℤ delay_offset base actual_delay) ≡ actual_delay)
unfolding delay_offset word32 ◌+ℤ◌
delay_offset_lem base actual_delay hb ha = ground arith

-- The sum of the current slot's offsets, by their number.
pub record IsSlot (c : Ledbat) : Type 0 where
  pub above : pos_part c.current_delay_sum ≤ c.current_delay_samples * (2 ^ 31 - 1)
  pub below : neg_part c.current_delay_sum ≤ c.current_delay_samples * 2 ^ 31
  pub base_fits : c.average_delay_base < 2 ^ 32

take_delay-IsSlot :
    (c : Ledbat) (actual_delay : ℕ)
    → actual_delay < 2 ^ 32
    → IsSlot c
    → IsSlot (take_delay c actual_delay)
unfolding take_delay
take_delay-IsSlot c actual_delay h v = elim (Bool-cases (c.average_delay_base == 0)) [
  | inl first ↦ simp first (kept actual_delay h)
  | inr later ↦ simp later (kept c.average_delay_base v.base_fits)
]
  where
    kept :
        (base : ℕ)
        → base < 2 ^ 32
        → IsSlot (record c {
          average_delay_base = base;
          current_delay_sum = c.current_delay_sum +ℤ delay_offset base actual_delay;
          current_delay_samples = c.current_delay_samples + 1;
        })
    kept base hb =
        let bounds = delay_offset_lem base actual_delay hb h in
        let sums = +ℤ_parts_le c.current_delay_sum (delay_offset base actual_delay) in
        record {
          above = omega (arith, v.above, bounds.0, sums.0);
          below = omega (arith, v.below, bounds.1, sums.1);
          base_fits = hb;
        }

word32-lt : (a : ℤ) → word32 a < 2 ^ 32
unfolding word32
word32-lt (pos n) = omega arith
word32-lt (negsuc n) = omega arith

-- The slot's average, rounded towards zero.
abbrev pub slot_average : Ledbat → ℤ
slot_average c = quot c.current_delay_sum c.current_delay_samples

module _ (c : Ledbat) (v : IsSlot c) where
  end_slot-IsSlot : IsSlot (end_slot c)
  unfolding end_slot
  end_slot-IsSlot = record { above = omega arith; below = omega arith; base_fits = word32-lt _ }

signed_order : (s t : ℕ) → s < 2 ^ 63 → t < 2 ^ 63 → ltb_ℤ (signed64 s) (signed64 t) ≡ ltb s t
signed_order s t hs ht = ground arith

-- A delay taken into a slot keeps the slot's bounds. It ends the slot exactly if the slot's time
-- has passed, and otherwise leaves the average, the drift and the slot's end as they are.
update_delay_average_lem :
    (c : Ledbat) (actual_delay t : ℕ)
    → actual_delay < 2 ^ 32
    → t < 2 ^ 63
    → c.average_sample_time < 2 ^ 63
    → IsSlot c
    → let c' = update_delay_average c actual_delay t in
      IsSlot c'
      × (c.average_sample_time < t → c' ≡ end_slot (take_delay c actual_delay))
      × (t ≤ c.average_sample_time
          → (c'.current_delay_samples ≡ c.current_delay_samples + 1)
            × (c'.average_delay ≡ c.average_delay)
            × (c'.clock_drift ≡ c.clock_drift)
            × (c'.average_sample_time ≡ c.average_sample_time))
unfolding update_delay_average
update_delay_average_lem c actual_delay t h ht hs v =
    rw (signed_order c.average_sample_time t hs ht)
      (elim (Bool-cases (ltb c.average_sample_time t)) [
        | inl ended ↦
            rw ended (end_slot-IsSlot _ taken, λ _. refl, λ le. absurd (omega (tests, le, ended)))
        | inr within ↦ rw within (
          taken,
          (λ lt. absurd (omega (arith, lt, ltb-false _ _ within))),
          λ _. unfold take_delay in (refl, refl, refl, refl),
        )
      ])
  where
    taken : IsSlot (take_delay c actual_delay)
    taken = take_delay-IsSlot c actual_delay h v
