-- ===== src/Parse/Inside.antt =====
-- The walk stays inside the packet.
use libutp.Base.{
  [], ◌∷◌, ℕ, zero, suc, ◌+◌, ◌-◌, ◌≤◌, ◌<◌, ◌≡◌, arith, List, Option, none, some, inl, inr, not,
  ◌&&◌, ◌==◌, ltb, ltb-false, Bool-cases, Option-cases, if◌then◌else◌, length, get_elem?,
  length-take, length-drop, drop, true, false,
}
use libutp.Wire.{header_size}
use libutp.Parse.{Walk, Round, Ending, next, done, take_extension, round, walk}

-- The bitmap of a selective acknowledgement lies between the header and the payload, with its
-- length in the byte before it.
unfoldable pub SelackInside : List ℕ → ℕ → Option ℕ → Type 0
SelackInside bytes payload none = Unit
SelackInside bytes payload (some at) =
    (header_size + 2 ≤ at)
    × (len : ℕ) × (get_elem? bytes (at - 1) ≡ some len)
    × (at + len ≤ payload)

pub record IsInside (bytes : List ℕ) (w : Walk) : Type 0 where
  pub after_header : header_size ≤ w.payload
  pub in_packet : w.payload ≤ length bytes
  pub selack_inside : SelackInside bytes w.payload w.selack
  pub eight_bits : length w.extensions ≡ 8

SelackInside-mono :
    (bytes : List ℕ) (p q : ℕ) (selack : Option ℕ)
    → p ≤ q
    → SelackInside bytes p selack
    → SelackInside bytes q selack
unfolding SelackInside
SelackInside-mono bytes p q none le v = tt
SelackInside-mono bytes p q (some at) le (low, len, e, fits) = (low, len, e, omega arith)

-- What a round may end in.
pub RoundInside : List ℕ → Walk → Round → Type 0
RoundInside bytes w Round.fault = ⊥
RoundInside bytes w Round.invalid = Unit
RoundInside bytes w (next w') = IsInside bytes w' × (w.payload + 2 ≤ w'.payload)

guarded :
    (extension len : ℕ)
    → (extension == 2) ≡ true
    → (extension == 2 && not (len == 8)) ≡ false
    → len ≡ 8
guarded extension len bits eight = ground arith

take_extension-IsInside :
    (bytes : List ℕ) (w : Walk) (len after : ℕ)
    → IsInside bytes w
    → w.payload + 2 + len ≤ length bytes
    → get_elem? bytes (w.payload + 2 - 1) ≡ some len
    → (w.extension == 2 && not (len == 8)) ≡ false
    → IsInside bytes (take_extension bytes w (w.payload + 2) len after)
unfolding take_extension
take_extension-IsInside bytes w len after v fits e eight = record {
  after_header = omega (arith, v.after_header);
  in_packet = fits;
  selack_inside = elim (Bool-cases (w.extension == 1)) [
    | inl sack ↦
        rw sack (unfold SelackInside in (omega (arith, v.after_header), len, e, omega arith))
    | inr other ↦
        rw other (SelackInside-mono bytes w.payload _ w.selack (omega arith) v.selack_inside)
  ];
  eight_bits = elim (Bool-cases (w.extension == 2)) [
    | inl bits ↦ rw bits (
        omega (
          arith,
          length-take 8 (drop (w.payload + 2) bytes),
          length-drop (w.payload + 2) bytes,
          guarded w.extension len bits eight,
        ))
    | inr other ↦ rw other v.eight_bits
  ];
}

get_elem?_fault : (bytes : List ℕ) (i : ℕ) → get_elem? bytes i ≡ none → length bytes ≤ i
get_elem?_fault [] i e = omega arith
get_elem?_fault (b ∷ bytes) zero e = ground arith
get_elem?_fault (b ∷ bytes) (suc i) e = omega (arith, get_elem?_fault bytes i e)

round_lem : (bytes : List ℕ) (w : Walk) → IsInside bytes w → RoundInside bytes w (round bytes w)
unfolding round RoundInside
round_lem bytes w v =
    let at = w.payload + 2 in
    elim (Bool-cases (ltb (length bytes) at)) [
      | inl past ↦ rw past tt
      | inr within ↦ rw within (elim (Option-cases (get_elem? bytes (at - 1))) [
        | inl e ↦ absurd (omega (arith, get_elem?_fault bytes (at - 1) e, ltb-false _ _ within))
        | inr (len, e) ↦ rw e (elim (Bool-cases (ltb (length bytes - at) len)) [
          | inl long ↦ rw long tt
          | inr fits ↦ rw fits (elim (Bool-cases (w.extension == 2 && not (len == 8))) [
            | inl bad ↦ rw bad tt
            | inr good ↦ rw good (elim (Option-cases (get_elem? bytes (at - 2))) [
              | inl e ↦
                  absurd (omega (arith, get_elem?_fault bytes (at - 2) e, ltb-false _ _ within))
              | inr (after, e') ↦ rw e' (
                take_extension-IsInside bytes w len after v
                    (omega (arith, ltb-false _ _ fits, ltb-false _ _ within)) e good,
                unfold take_extension in omega arith,
              )
            ])
          ])
        ])
      ])
    ]

-- What the loop may end in.
unfoldable pub EndsInside : List ℕ → Ending → Type 0
EndsInside bytes Ending.endless = ⊥
EndsInside bytes Ending.fault = ⊥
EndsInside bytes (Ending.invalid extensions) = length extensions ≡ 8
EndsInside bytes (done w) = IsInside bytes w

pub walk_lem :
    (fuel : ℕ) (bytes : List ℕ) (w : Walk)
    → length bytes < w.payload + fuel
    → IsInside bytes w
    → EndsInside bytes (walk fuel bytes w)
unfolding walk EndsInside RoundInside
walk_lem zero bytes w enough v = absurd (omega (arith, v.in_packet))
walk_lem (suc fuel) bytes w enough v =
    go (λ w' le. walk_lem fuel bytes w' (omega arith)) (round bytes w) (round_lem bytes w v)
  where
    go :
        ((w' : Walk)
          → w.payload + 2 ≤ w'.payload
          → IsInside bytes w'
          → EndsInside bytes (walk fuel bytes w'))
        → (r : Round) → RoundInside bytes w r
        → EndsInside bytes (elim r [
          | Round.fault ↦ Ending.fault
          | Round.invalid ↦ Ending.invalid w.extensions
          | next w' ↦ let rest = walk fuel bytes w' in if w'.extension == 0 then done w' else rest
        ])
    go rest Round.fault h = h
    go rest Round.invalid h = v.eight_bits
    go rest (next w') (inside, further) = elim (Bool-cases (w'.extension == 0)) [
      | inl last ↦ rw last inside
      | inr more ↦ rw more (rest w' further inside)
    ]
