-- ===== src/DelayHistory/Session.antt =====
-- A whole run of samples from a cleared history, and what `get_value` then reports.
use libutp.Base.{ℕ, ◌+◌, ◌^◌, ◌<◌, List, [], ◌∷◌, map}
use libutp.Base.{u32, All}
use libutp.DelayHistory.{DelayHistory, add_sample}
use libutp.DelayHistory.Ideal.{ideal_sample}

-- A sample with the time at which it is added.
abbrev pub Sample : Type 0
Sample = ℕ × ℕ

unfoldable pub add_samples : DelayHistory → List Sample → DelayHistory
add_samples h [] = h
add_samples h ((sample, current_ms) ∷ rest) = add_samples (add_sample h sample current_ms) rest

unfoldable pub ideal_samples : DelayHistory → List Sample → DelayHistory
ideal_samples h [] = h
ideal_samples h ((d, current_ms) ∷ rest) = ideal_samples (ideal_sample h d current_ms) rest

-- The samples as the program sees them, from the origin `r`.
abbrev pub seen : ℕ → List Sample → List Sample
seen r = map (λ s. (u32 (r + s.0), s.1))

abbrev pub AllNear : List Sample → Type 0
AllNear = All (λ s. s.0 < 2 ^ 31)
