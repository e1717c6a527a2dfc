-- ===== src/Parse/Chain.antt =====
-- A chain of extensions as a sender writes it, and what a round makes of its first one.
use libutp.Base.{
  [], ◌∷◌, ◌++◌, ℕ, ◌+◌, ◌-◌, ◌≤◌, ◌≡◌, ◌≢◌, refl, ap, sym, ◌∙◌, arith, List, Option, some, not,
  ◌&&◌, ◌==◌, ==-false, ==_iff, ltb, Bool-cases, if◌then◌else◌, length, get_elem?, length-append,
  length-drop, get_elem?-drop, drop-drop, drop-length, take-length, take, drop, false, inl, inr,
  ◌⊎◌,
}
use mathlib.Core.List.{append_assoc}
use libutp.Parse.{Walk, next, take_extension, round}

pub record Extension : Type 0 where
  pub kind : ℕ
  pub content : List ℕ

-- The kind of the first extension, and 0 at the end.
unfoldable pub first_kind : List Extension → ℕ
first_kind [] = 0
first_kind (e ∷ es) = e.kind

-- Each extension: the next one's kind, its length, its content.
unfoldable pub chain : List Extension → List ℕ
chain [] = []
chain (e ∷ es) = first_kind es ∷ length e.content ∷ (e.content ++ chain es)

-- Where the content of the last selective acknowledgement stands in a chain at `at`.
unfoldable pub last_selack : List Extension → ℕ → Option ℕ → Option ℕ
last_selack [] at selack = selack
last_selack (e ∷ es) at selack =
    last_selack es (at + 2 + length e.content) (if e.kind == 1 then some (at + 2) else selack)

-- The extension bits that were given last.
unfoldable pub last_bits : List Extension → List ℕ → List ℕ
last_bits [] bits = bits
last_bits (e ∷ es) bits = last_bits es (if e.kind == 2 then e.content else bits)

-- A kind that is not the end's, and eight bytes of extension bits.
unfoldable pub IsExtension : Extension → Type 0
IsExtension e = (e.kind ≢ 0) × ((e.kind ≢ 2) ⊎ (length e.content ≡ 8))

unfoldable pub IsChain : List Extension → Type 0
IsChain [] = Unit
IsChain (e ∷ es) = IsExtension e × IsChain es

pub within : (m n : ℕ) → n ≤ m → ltb m n ≡ false
within m n h = ground arith

-- The state after the round for an extension.
abbrev pub after : Walk → Extension → List Extension → Walk
after w e es = record {
  extension = first_kind es;
  payload = w.payload + 2 + length e.content;
  selack = if e.kind == 1 then some (w.payload + 2) else w.selack;
  extensions = if e.kind == 2 then e.content else w.extensions;
}

module _ (bytes : List ℕ) (w : Walk) (e : Extension) (es : List Extension) (rest : List ℕ) where
  abbrev pub AtChain : Type 0
  AtChain = drop w.payload bytes ≡ chain (e ∷ es) ++ rest

  next_kind_at : AtChain → get_elem? bytes (w.payload + 2 - 2) ≡ some (first_kind es)
  unfolding chain
  next_kind_at h =
      ap (get_elem? bytes) (omega arith)
      ∙ sym (get_elem?-drop w.payload 0 bytes)
      ∙ ap (λ l. get_elem? l 0) h

  length_at : AtChain → get_elem? bytes (w.payload + 2 - 1) ≡ some (length e.content)
  unfolding chain
  length_at h =
      ap (get_elem? bytes) (omega arith)
      ∙ sym (get_elem?-drop w.payload 1 bytes)
      ∙ ap (λ l. get_elem? l 1) h

  content_at : AtChain → drop (w.payload + 2) bytes ≡ e.content ++ (chain es ++ rest)
  unfolding chain
  content_at h =
      sym (drop-drop w.payload 2 (w.payload + 2) bytes refl)
      ∙ ap (drop 2) h
      ∙ append_assoc e.content (chain es) rest

  pub after_at : AtChain → drop (w.payload + 2 + length e.content) bytes ≡ chain es ++ rest
  after_at h =
      sym (drop-drop (w.payload + 2) (length e.content) _ bytes refl)
      ∙ ap (drop (length e.content)) (content_at h)
      ∙ drop-length e.content (chain es ++ rest)

  fits_at : AtChain → w.payload + 2 + length e.content ≤ length bytes
  unfolding chain
  fits_at h = omega (
    arith,
    length-drop w.payload bytes,
    ap length h,
    length-append (chain (e ∷ es)) rest,
    length-append e.content (chain es),
  )

  bits_at :
      AtChain
      → IsExtension e
      → (if e.kind == 2 then take 8 (drop (w.payload + 2) bytes) else w.extensions)
        ≡ (if e.kind == 2 then e.content else w.extensions)
  unfolding IsExtension
  bits_at h (some_kind, other_kind) = elim (Bool-cases (e.kind == 2)) [
    | inr other ↦ rw other refl
    | inl bits ↦ rw bits (elim other_kind [
      | inl not_bits ↦ absurd (not_bits ((==_iff e.kind 2).0 bits))
      | inr eight ↦
          ap (λ n. take n (drop (w.payload + 2) bytes)) (sym eight)
          ∙ ap (take (length e.content)) (content_at h)
          ∙ take-length e.content (chain es ++ rest)
    ])
  ]

  eight_at : IsExtension e → (e.kind == 2 && not (length e.content == 8)) ≡ false
  unfolding IsExtension
  eight_at (some_kind, inl not_bits) = rw (==-false e.kind 2 not_bits) refl
  eight_at (some_kind, inr eight) =
      rw eight
        (elim (Bool-cases (e.kind == 2)) [ inl bits ↦ rw bits refl | inr other ↦ rw other refl ])

  pub round_at :
      AtChain → w.extension ≡ e.kind → IsExtension e → round bytes w ≡ next (after w e es)
  unfolding round take_extension
  round_at h kind v =
      simp
        (
          kind,
          length_at h,
          next_kind_at h,
          within (length bytes) (w.payload + 2) (omega (arith, fits_at h)),
          within (length bytes - (w.payload + 2)) (length e.content) (omega (arith, fits_at h)),
          eight_at v,
          bits_at h v,
        )
        refl
