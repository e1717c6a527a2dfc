-- ===== src/Context/Resets.antt =====
-- The cache of the resets that were sent, and what the timer's loop removes from it.
use libutp.Base.{
  ℕ, zero, suc, ◌+◌, ◌-◌, ◌≤◌, ◌<◌, ◌≡◌, ◌&&◌, not, refl, sym, ap, ◌∙◌, inl, inr, Option, none,
  some, arith, true, false, Bool, List, [], ◌∷◌,
}
use libutp.Base.{
  length, get_elem?, set, take, if◌then◌else◌, Bool-cases, Option-cases, none-some, length-set,
  length-take,
}
use mathlib.Core.Path.{subst}
use mathlib.Core.Option.{some-injective}
use libutp.Context.{RstInfo}
use libutp.Context.Expire.{is_expired, expire_from}

-- How many records pass a test.
abbrev pub count : (RstInfo → Bool) → List RstInfo → ℕ
count test [] = 0
count test (r ∷ rs) = (if test r then 1 else 0) + count test rs

module _ (test : RstInfo → Bool) where
  count-init :
      (rs : List RstInfo) (n : ℕ) (back : RstInfo)
      → length rs ≡ suc n
      → get_elem? rs n ≡ some back
      → count test (take n rs) + (if test back then 1 else 0) ≡ count test rs
  count-init [] n back size e = absurd (none-some e)
  count-init (r ∷ []) zero back size e = rw (some-injective r back e) (omega arith)
  count-init (r ∷ []) (suc n) back size e = absurd (none-some e)
  count-init (r ∷ (r' ∷ rs)) zero back size e = absurd (omega arith)
  count-init (r ∷ (r' ∷ rs)) (suc n) back size e =
      omega (arith, count-init (r' ∷ rs) n back (omega arith) e)

  -- The last record takes the place of another.
  count-swap :
      (rs : List RstInfo) (n i : ℕ) (r back : RstInfo)
      → length rs ≡ suc n
      → get_elem? rs i ≡ some r
      → get_elem? rs n ≡ some back
      → count test (take n (set rs i back)) + (if test r then 1 else 0) ≡ count test rs
  count-swap [] n i r back size e last = absurd (none-some e)
  count-swap (x ∷ []) zero zero r back size e last = rw (some-injective x r e) (omega arith)
  count-swap (x ∷ []) (suc n) zero r back size e last = absurd (none-some last)
  count-swap (x ∷ []) n (suc i) r back size e last = absurd (none-some e)
  count-swap (x ∷ (y ∷ rs)) zero i r back size e last = absurd (omega arith)
  count-swap (x ∷ (y ∷ rs)) (suc n) zero r back size e last =
      rw (← some-injective x r e) (omega (arith, count-init (y ∷ rs) n back (omega arith) last))
  count-swap (x ∷ (y ∷ rs)) (suc n) (suc i) r back size e last =
      omega (arith, count-swap (y ∷ rs) n i r back (omega arith) e last)

  count-take-suc :
      (rs : List RstInfo) (i : ℕ) (r : RstInfo)
      → get_elem? rs i ≡ some r
      → count test (take (suc i) rs) ≡ count test (take i rs) + (if test r then 1 else 0)
  count-take-suc [] i r e = absurd (none-some e)
  count-take-suc (x ∷ rs) zero r e = rw (some-injective x r e) (omega arith)
  count-take-suc (x ∷ rs) (suc i) r e = omega (arith, count-take-suc rs i r e)

get_elem?-some-lt :
    (rs : List RstInfo) (i : ℕ) (r : RstInfo) → get_elem? rs i ≡ some r → i < length rs
get_elem?-some-lt [] i r e = absurd (none-some e)
get_elem?-some-lt (x ∷ rs) zero r e = omega arith
get_elem?-some-lt (x ∷ rs) (suc i) r e = omega (arith, get_elem?-some-lt rs i r e)

take-swap :
    (rs : List RstInfo) (n i : ℕ) (back : RstInfo)
    → length rs ≡ suc n
    → i ≤ n
    → take i (take n (set rs i back)) ≡ take i rs
take-swap [] n i back size h = absurd (omega arith)
take-swap (x ∷ rs) n zero back size h = refl
take-swap (x ∷ rs) zero (suc i) back size h = absurd (omega arith)
take-swap (x ∷ []) (suc n) (suc i) back size h = absurd (omega arith)
take-swap (x ∷ (y ∷ rs)) (suc n) (suc i) back size h =
    ap (λ l. x ∷ l) (take-swap (y ∷ rs) n i back (omega arith) (omega arith))

take-all : (rs : List RstInfo) (i : ℕ) → get_elem? rs i ≡ none → take i rs ≡ rs
take-all [] zero e = refl
take-all [] (suc i) e = refl
take-all (x ∷ rs) zero e = absurd (none-some (sym e))
take-all (x ∷ rs) (suc i) e = ap (λ l. x ∷ l) (take-all rs i e)

last-some :
    (rs : List RstInfo) (n : ℕ) → length rs ≡ suc n → (r : RstInfo) × (get_elem? rs n ≡ some r)
last-some [] n size = absurd (omega arith)
last-some (x ∷ rs) zero size = (x, refl)
last-some (x ∷ rs) (suc n) size = last-some rs n (omega arith)

-- The records that a round of the timer leaves.
abbrev pub Expired : ℕ → List RstInfo → Option (List RstInfo) → Type 0
Expired now rs result =
    (rs' : List RstInfo) × (result ≡ some rs')
    × ((test : RstInfo → Bool) → count test rs' ≡ count (λ r. test r && not (is_expired now r)) rs)

only_alive :
    (now : ℕ) (test : RstInfo → Bool) (rs : List RstInfo)
    → count (is_expired now) rs ≡ 0
    → count test rs ≡ count (λ r. test r && not (is_expired now r)) rs
only_alive now test [] h = refl
only_alive now test (r ∷ rs) h = elim (Bool-cases (is_expired now r)) [
  | inl old ↦ absurd (omega (arith, rw old at h))
  | inr alive ↦ rw alive (kept (test r) (only_alive now test rs (omega (arith, rw alive at h))))
]
  where
    kept :
        (passes : Bool)
        → count test rs ≡ count (λ r. test r && not (is_expired now r)) rs
        → (if passes then 1 else 0) + count test rs
          ≡ (if passes && not false then 1 else 0)
            + count (λ r. test r && not (is_expired now r)) rs
    kept true e = omega (arith, e)
    kept false e = omega (arith, e)

not_counted : (passes old : Bool) → old ≡ true → ◌≡◌ {A = ℕ} (if passes && not old then 1 else 0) 0
not_counted passes old e = ground arith

module _ (fuel now i : ℕ) (rs : List RstInfo) (r back : RstInfo) (e : get_elem? rs i ≡ some r)
    (last : get_elem? rs (length rs - 1) ≡ some back) where
  expire_old :
      is_expired now r ≡ true
      → expire_from (suc fuel) now i rs
        ≡ expire_from fuel now i (take (length rs - 1) (set rs i back))
  unfolding expire_from
  expire_old old = rw (e, expire_from, last, old) refl

  expire_young :
      is_expired now r ≡ false → expire_from (suc fuel) now i rs ≡ expire_from fuel now (i + 1) rs
  unfolding expire_from
  expire_young young = rw (e, expire_from, last, young) refl

-- The loop at `i`, with nothing expired before: it ends, with what was alive.
expire_from_lem :
    (fuel now i : ℕ) (rs : List RstInfo)
    → length rs - i < fuel
    → count (is_expired now) (take i rs) ≡ 0
    → Expired now rs (expire_from fuel now i rs)
unfolding expire_from
expire_from_lem zero now i rs enough alive = absurd (omega arith)
expire_from_lem (suc fuel) now i rs enough alive = elim (Option-cases (get_elem? rs i)) [
  | inl e ↦ (
    rs,
    rw (e, expire_from) refl,
    λ test.
        only_alive now test rs (subst (λ l. count (is_expired now) l ≡ 0) (take-all rs i e) alive),
  )
  | inr (r, e) ↦
      let lt = get_elem?-some-lt rs i r e in
      let (back, last) = last-some rs (length rs - 1) (omega (arith, lt)) in
      elim (Bool-cases (is_expired now r)) [
        | inl old ↦
            let n = length rs - 1 in
            let size : length rs ≡ suc n = omega (arith, lt) in
            let rs1 = take n (set rs i back) in
            let shorter : length rs1 - i < fuel =
              omega (arith, length-take n (set rs i back), length-set rs i back, lt) in
            let before : count (is_expired now) (take i rs1) ≡ 0 =
              rw (take-swap rs n i back size (omega (arith, lt))) alive in
            let (rs', done, same) = expire_from_lem fuel now i rs1 shorter before in
            (
              rs',
              expire_old fuel now i rs r back e last old ∙ done,
              λ test.
                  same test
                  ∙ omega (
                    arith,
                    count-swap (λ r. test r && not (is_expired now r)) rs n i r back size e last,
                    not_counted (test r) (is_expired now r) old,
                  ),
            )
        | inr young ↦
            let further : count (is_expired now) (take (i + 1) rs) ≡ 0 = omega (
              arith,
              ap (λ t. count (is_expired now) (take t rs)) {x = i + 1} {y = suc i} (omega arith),
              count-take-suc (is_expired now) rs i r e,
              ap {B = ℕ} (λ (t : Bool). if t then 1 else 0) young,
            ) in
            let (rs', done, same) =
              expire_from_lem fuel now (i + 1) rs (omega (arith, lt)) further in
            (rs', expire_young fuel now i rs r back e last young ∙ done, same)
      ]
]

-- A round of the timer ends, and leaves exactly the records that are not ten seconds old, each as many
-- times as before.
pub expire_lem :
    (now : ℕ) (rs : List RstInfo) → Expired now rs (expire_from (length rs + 1) now 0 rs)
expire_lem now rs = expire_from_lem (length rs + 1) now 0 rs (omega arith) (omega arith)
