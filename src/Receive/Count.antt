-- ===== src/Receive/Count.antt =====
-- How many packets of a window have arrived.
use libutp.Base.{
  ℕ, zero, suc, ◌+◌, ◌≤◌, ◌<◌, ◌≡◌, refl, ap, ◌∙◌, arith, Bool, true, false, Bool-cases, inl, inr,
  ◌==◌, ==-false, ==-ne, ==_iff, if◌then◌else◌,
}

abbrev pub one_if : Bool → ℕ
one_if b = if b then 1 else 0

-- Over the `m` packets from `n` on.
pub count : (ℕ → Bool) → ℕ → ℕ → ℕ
count arrived n zero = 0
count arrived n (suc m) = one_if (arrived n) + count arrived (n + 1) m

pub count-none : (n m : ℕ) → count (λ q. false) n m ≡ 0
unfolding count
count-none n zero = refl
count-none n (suc m) = omega (arith, count-none (n + 1) m)

-- One packet more has arrived.
abbrev pub mark : ℕ → (ℕ → Bool) → ℕ → Bool
mark p arrived q = if q == p then true else arrived q

one_if-le : (b : Bool) → one_if b ≤ 1
one_if-le true = omega arith
one_if-le false = omega arith

module _ (arrived : ℕ → Bool) where
  pub count-le : (n m : ℕ) → count arrived n m ≤ m
  unfolding count
  count-le n zero = omega arith
  count-le n (suc m) = omega (arith, count-le (n + 1) m, one_if-le (arrived n))

  -- The last of a window, and what lies behind it.
  count-snoc : (n m : ℕ) → count arrived n (suc m) ≡ count arrived n m + one_if (arrived (n + m))
  unfolding count
  count-snoc n zero = omega (arith, ap (λ q. one_if (arrived q)) {x = n} {y = n + 0} (omega arith))
  count-snoc n (suc m) = omega (
    arith,
    count-snoc (n + 1) m,
    ap (λ q. one_if (arrived q)) {x = n + 1 + m} {y = n + suc m} (omega arith),
  )

  -- A window moves on when nothing has arrived at its new end.
  pub count-shift :
      (n m : ℕ)
      → arrived (n + m) ≡ false
      → count arrived n m ≡ one_if (arrived n) + count arrived (n + 1) m
  unfolding count
  count-shift n m e = omega (arith, count-snoc n m, ap one_if e)

  pub count-first : (n m : ℕ) → 0 < m → arrived n ≡ true → 0 < count arrived n m
  unfolding count
  count-first n zero h e = absurd (omega arith)
  count-first n (suc m) h e = omega (arith, ap one_if e)

  -- A longer window, when nothing has arrived behind.
  pub count-longer :
      (n m k : ℕ)
      → ((j : ℕ) → m ≤ j → arrived (n + j) ≡ false)
      → count arrived n (m + k) ≡ count arrived n m
  count-longer n m zero none_behind = ap (count arrived n) (omega arith)
  count-longer n m (suc k) none_behind =
      ap (count arrived n) {y = suc (m + k)} (omega arith)
      ∙ omega (
        arith,
        count-snoc n (m + k),
        count-longer n m k none_behind,
        ap one_if (none_behind (m + k) (omega arith)),
      )

  -- A packet that has not arrived before counts once, before the window not at all.
  pub count-mark_before : (p n m : ℕ) → p < n → count (mark p arrived) n m ≡ count arrived n m
  unfolding count
  count-mark_before p n zero h = refl
  count-mark_before p n (suc m) h =
      rw (==-false n p (omega arith), count-mark_before p (n + 1) m (omega arith)) refl

  pub count-mark :
      (p n m : ℕ)
      → n ≤ p
      → p < n + m
      → arrived p ≡ false
      → count (mark p arrived) n m ≡ suc (count arrived n m)
  unfolding count
  count-mark p n zero le lt e = absurd (omega arith)
  count-mark p n (suc m) le lt e = elim (Bool-cases (n == p)) [
    | inl here ↦ omega (
      arith,
      ap one_if (ap (λ b. if b then true else arrived n) here),
      ap one_if (ap arrived ((==_iff n p).0 here) ∙ e),
      count-mark_before p (n + 1) m (omega (arith, (==_iff n p).0 here)),
    )
    | inr later ↦ omega (
      arith,
      ap one_if (ap (λ b. if b then true else arrived n) later),
      count-mark p (n + 1) m (omega (arith, ==-ne n p later)) (omega arith) e,
    )
  ]
