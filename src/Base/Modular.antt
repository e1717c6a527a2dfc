-- ===== src/Base/Modular.antt =====
-- Remainders by a power of two, as the masks and the wrapping words of the program use them.
use Prim.Native.Nat.{ℕ, zero, suc, ◌+◌, ◌-◌, ◌%◌, ◌^◌, ◌≤◌, ◌<◌, ◌∣◌}
use mathlib.Core.Path.{◌≡◌, sym, ◌∙◌}
use mathlib.Core.Logic.{◌≢◌}
use native.Mathlib.Nat.{mod-mod_of_dvd, pow-suc, mod-add-mod, mod-eq-sub-mod, mod-lt, mod-eq_of_lt}
use native.Mathlib.Nat.{dvd_refl, dvd_trans, dvd-mul_right}
use native.Mathlib.Decide.{dec_lt}
use native.Mathlib.Omega.{arith}

pow_dvd : (k m : ℕ) → k ≤ m → 2 ^ k ∣ 2 ^ m
pow_dvd k zero h = let e : k ≡ zero = omega arith in rw e (dvd_refl _)
pow_dvd k (suc m) h = elim (dec_lt k (suc m)) [
  | yes below ↦ dvd_trans _ (pow_dvd k m (omega arith)) (rw (pow-suc 2 m) (dvd-mul_right _ 2))
  | no top ↦ let e : k ≡ suc m = omega arith in rw e (dvd_refl _)
]

-- A wrapping word keeps its low bits.
pub mod-pow-pow : (a k m : ℕ) → k ≤ m → a % 2 ^ m % 2 ^ k ≡ a % 2 ^ k
mod-pow-pow a k m h = mod-mod_of_dvd (2 ^ k) a (pow_dvd k m h)

remainder_moves : (r d n : ℕ) → r < n → 0 < d → d < n → (r + d) % n ≢ r
remainder_moves r d n hr pos small = elim (dec_lt (r + d) n) [
  | yes below ↦ omega (arith, mod-eq_of_lt below)
  | no past ↦ omega (
    arith,
    mod-eq-sub-mod {n = r + d} {m = n} (omega arith),
    mod-eq_of_lt {n = r + d - n} {m = n} (omega arith),
  )
]

-- Numbers that differ by less than the modulus have different remainders.
pub mod-ne : (a d n : ℕ) → 0 < d → d < n → (a + d) % n ≢ a % n
mod-ne a d n pos small e =
    remainder_moves (a % n) d n (mod-lt a (omega arith)) pos small (mod-add-mod a n d ∙ e)

pub mod-ne_of_window : (a i j n : ℕ) → i < j → j < i + n → (a + i) % n ≢ (a + j) % n
mod-ne_of_window a i j n lt small e =
    mod-ne (a + i) (j - i) n (omega arith) (omega arith) (rw shift (sym e))
  where
    shift : a + i + (j - i) ≡ a + j
    shift = omega arith
