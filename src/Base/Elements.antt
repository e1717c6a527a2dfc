-- ===== src/Base/Elements.antt =====
-- Elements by their places: in a prefix, in what is left of it, and in a longer list.
use Prim.Native.Nat.{ℕ, zero, suc, ◌+◌, ◌≤◌, ◌<◌}
use mathlib.Core.Path.{◌≡◌, refl, ap, ◌∙◌}
use mathlib.Core.Logic.{◌≢◌, inl, inr}
use mathlib.Core.List.{List, [], ◌∷◌, ◌++◌}
use mathlib.Core.Option.{none, some}
use native.Mathlib.Omega.{arith}
use libutp.Base.Lists.{length, get_elem?, take, drop}
use libutp.Base.Tests.{ltb, ltb→lt, lt→ltb, ◌==◌, ==-false, ==_iff, Bool-cases, if◌then◌else◌}

ltb-suc : (i n : ℕ) → ltb i n ≡ ltb (suc i) (suc n)
ltb-suc i n = ground arith

==-suc : (i n : ℕ) → (i == n) ≡ (suc i == suc n)
==-suc i n = ground arith

module _ {ℓ} {A : Type ℓ} where
  pub get_elem?-lt : (xs : List A) (i : ℕ) (x : A) → get_elem? xs i ≡ some x → i < length xs
  get_elem?-lt [] i x e = ground arith
  get_elem?-lt (y ∷ xs) zero x e = omega arith
  get_elem?-lt (y ∷ xs) (suc i) x e = omega (arith, get_elem?-lt xs i x e)

  pub get_elem?-past : (xs : List A) (i : ℕ) → length xs ≤ i → get_elem? xs i ≡ none
  get_elem?-past [] i h = refl
  get_elem?-past (y ∷ xs) zero h = absurd (omega arith)
  get_elem?-past (y ∷ xs) (suc i) h = get_elem?-past xs i (omega arith)

  pub get_elem?-some : (xs : List A) (i : ℕ) → i < length xs → (x : A) × (get_elem? xs i ≡ some x)
  get_elem?-some [] i h = absurd (omega arith)
  get_elem?-some (y ∷ xs) zero h = (y, refl)
  get_elem?-some (y ∷ xs) (suc i) h = get_elem?-some xs i (omega arith)

  pub get_elem?-take :
      (n : ℕ) (xs : List A) (i : ℕ)
      → get_elem? (take n xs) i ≡ (if ltb i n then get_elem? xs i else none)
  get_elem?-take zero xs i = elim (Bool-cases (ltb i 0)) [
    | inl below ↦ absurd (omega (arith, ltb→lt i 0 below))
    | inr above ↦ rw above refl
  ]
  get_elem?-take (suc n) [] i = elim (Bool-cases (ltb i (suc n))) [
    | inl below ↦ rw below refl
    | inr above ↦ rw above refl
  ]
  get_elem?-take (suc n) (x ∷ xs) zero = rw (lt→ltb 0 (suc n) (omega arith)) refl
  get_elem?-take (suc n) (x ∷ xs) (suc i) =
      get_elem?-take n xs i ∙ ap (λ b. if b then get_elem? xs i else none) (ltb-suc i n)

  get_elem?-append :
      (xs : List A) (y : A) (i : ℕ)
      → get_elem? (xs ++ y ∷ []) i ≡ (if i == length xs then some y else get_elem? xs i)
  get_elem?-append [] y zero = refl
  get_elem?-append [] y (suc i) = rw (==-false (suc i) 0 (omega arith)) refl
  get_elem?-append (x ∷ xs) y zero = rw (==-false 0 (suc (length xs)) (omega arith)) refl
  get_elem?-append (x ∷ xs) y (suc i) =
      get_elem?-append xs y i
      ∙ ap (λ b. if b then some y else get_elem? xs i) (==-suc i (length xs))

module _ {ℓ} {A : Type ℓ} (xs : List A) (y : A) where
  pub get_elem?-append_last : get_elem? (xs ++ y ∷ []) (length xs) ≡ some y
  get_elem?-append_last =
      rw (get_elem?-append xs y (length xs), (==_iff (length xs) (length xs)).1 refl) refl

  pub get_elem?-append_ne : (i : ℕ) → i ≢ length xs → get_elem? (xs ++ y ∷ []) i ≡ get_elem? xs i
  get_elem?-append_ne i ne = rw (get_elem?-append xs y i, ==-false i (length xs) ne) refl

module _ {ℓ} {A : Type ℓ} where
  pub get_elem?-drop : (n i : ℕ) (xs : List A) → get_elem? (drop n xs) i ≡ get_elem? xs (n + i)
  get_elem?-drop zero i xs = ap (get_elem? xs) (omega arith)
  get_elem?-drop (suc n) i [] = refl
  get_elem?-drop (suc n) i (x ∷ xs) =
      get_elem?-drop n i xs ∙ ap (get_elem? (x ∷ xs)) {x = suc (n + i)} (omega arith)

  drop-nil : (n : ℕ) → drop {A = A} n [] ≡ []
  drop-nil zero = refl
  drop-nil (suc n) = refl

  pub drop-drop : (n m k : ℕ) (xs : List A) → k ≡ n + m → drop m (drop n xs) ≡ drop k xs
  drop-drop zero m k xs e = ap (λ k. drop k xs) (omega arith)
  drop-drop (suc n) m zero xs e = absurd (omega arith)
  drop-drop (suc n) m (suc k) [] e = drop-nil m
  drop-drop (suc n) m (suc k) (x ∷ xs) e = drop-drop n m k xs (omega arith)

  pub drop-length : (xs ys : List A) → drop (length xs) (xs ++ ys) ≡ ys
  drop-length [] ys = refl
  drop-length (x ∷ xs) ys = drop-length xs ys

  pub take-length : (xs ys : List A) → take (length xs) (xs ++ ys) ≡ xs
  take-length [] ys = refl
  take-length (x ∷ xs) ys = ap (λ l. x ∷ l) (take-length xs ys)
