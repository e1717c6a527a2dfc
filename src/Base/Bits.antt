-- ===== src/Base/Bits.antt =====
-- `&` with a low mask and `|` of disjoint fields as arithmetic, at every width.
use Prim.Native.Nat.{ℕ, zero, suc, ◌+◌, ◌-◌, ◌*◌, ◌/◌, ◌%◌, ◌^◌, ◌≤◌, ◌<◌, min, max}
use Prim.Native.Nat.{bit_and, bit_or, digits, bitwise, bit_and-bitwise, bit_or-bitwise}
use mathlib.Core.Path.{◌≡◌, refl, ap, ◌∙◌}
use native.Mathlib.Nat.{pow-suc, one-le-pow, le_refl}
use native.Mathlib.Omega.{arith}
use native.Mathlib.Numerals.{unary_clauses}

module _ (z : ℕ → ℕ) (f : ℕ → ℕ → ℕ) where
  -- More rounds than the first number has change nothing.
  spare_rounds : (k n a b : ℕ) → a ≤ n → digits z f (k + n) a b ≡ digits z f n a b
  spare_rounds zero zero zero b h = refl
  spare_rounds (suc k) zero zero b h = simp unary_clauses refl
  spare_rounds k (suc n) zero b h = simp unary_clauses refl
  spare_rounds k zero (suc a) b h = absurd (omega arith)
  spare_rounds k (suc n) (suc a) b h =
      simp (unary_clauses, spare_rounds k n (suc a / 2) (b / 2) (omega arith)) refl

  -- One round, with the halves taken as they are.
  after_round : (a b : ℕ) → digits z f a (suc a / 2) (b / 2) ≡ bitwise z f (suc a / 2) (b / 2)
  after_round a b =
      let half = suc a / 2 in
      let spare = a - half in
      let e : a ≡ spare + half = omega arith in
      ap (λ (n : ℕ). digits z f n half (b / 2)) e ∙ spare_rounds spare half half (b / 2) (le_refl _)

-- Both operations by the lowest digits and the halves.
pub lowest_digits :
    (a b : ℕ)
    → (bit_and a b ≡ 2 * bit_and (a / 2) (b / 2) + min (a % 2) (b % 2))
      × (bit_or a b ≡ 2 * bit_or (a / 2) (b / 2) + max (a % 2) (b % 2))
lowest_digits zero b = simp (bit_and-bitwise, bit_or-bitwise) (omega arith, omega arith)
lowest_digits (suc a) b =
    simp (bit_and-bitwise, bit_or-bitwise)
      (omega (arith, after_round (λ y. 0) min a b), omega (arith, after_round (λ y. y) max a b))

-- With zero on the right every round adds the first number's own digit, or none.
zero_right : (k a : ℕ) → a ≤ k → (bit_and a 0 ≡ 0) × (bit_or a 0 ≡ a)
zero_right k zero h = (refl, refl)
zero_right zero (suc a) h = absurd (omega arith)
zero_right (suc k) (suc a) h =
    let halves = zero_right k (suc a / 2) (omega arith) in
    (
      omega (arith, (lowest_digits (suc a) 0).0, halves.0),
      omega (arith, (lowest_digits (suc a) 0).1, halves.1),
    )

double_pow : (q k : ℕ) → q * 2 ^ suc k ≡ 2 * (q * 2 ^ k)
double_pow q k = omega (arith, ap (λ (t : ℕ). q * t) (pow-suc 2 k))

-- `(q << k) | r` is a sum when `r` fits `k` bits.
pub bit_or_fields : (k q r : ℕ) → r < 2 ^ k → bit_or (q * 2 ^ k) r ≡ q * 2 ^ k + r
bit_or_fields zero q r fits = ground (arith, (zero_right (q * 1) (q * 1) (le_refl _)).1)
bit_or_fields (suc k) q r fits = ground (
  arith,
  (lowest_digits (q * 2 ^ suc k) r).1,
  double_pow q k,
  bit_or_fields k q (r / 2) (omega arith),
)

bit_and_fields : (k q r : ℕ) → r < 2 ^ k → bit_and (q * 2 ^ k + r) (2 ^ k - 1) ≡ r
bit_and_fields zero q r fits = omega (arith, (zero_right (q * 1 + r) (q * 1 + r) (le_refl _)).0)
bit_and_fields (suc k) q r fits = ground (
  arith,
  (lowest_digits (q * 2 ^ suc k + r) (2 ^ suc k - 1)).0,
  double_pow q k,
  pow-suc 2 k,
  bit_and_fields k q (r / 2) (omega arith),
)

-- A mask of `k` low bits is the remainder by `2 ^ k`.
pub bit_and_mask : (k a : ℕ) → bit_and a (2 ^ k - 1) ≡ a % 2 ^ k
bit_and_mask k a = ground (arith, one-le-pow k 2, bit_and_fields k (a / 2 ^ k) (a % 2 ^ k))

bit_or-zero_left : (b : ℕ) → bit_or 0 b ≡ b
bit_or-zero_left b = bit_or-bitwise 0 b

pub bit_or_fields_right : (k q r : ℕ) → r < 2 ^ k → bit_or r (q * 2 ^ k) ≡ q * 2 ^ k + r
bit_or_fields_right zero q r fits =
    let e : r ≡ 0 = omega arith in rw (e, bit_or-zero_left) (omega arith)
bit_or_fields_right (suc k) q r fits = ground (
  arith,
  (lowest_digits r (q * 2 ^ suc k)).1,
  double_pow q k,
  bit_or_fields_right k q (r / 2) (omega arith),
)
