-- ===== src/AckList/Places.antt =====
-- Every socket's index is its place in the list.
use libutp.Base.{
  ℕ, ◌-◌, ◌<◌, ◌≡◌, ◌≢◌, ◌↔◌, refl, sym, ap, ◌∙◌, arith, List, [], ◌∷◌, ◌++◌, Option, none, some,
  ==_iff, ==-false, length, length-set, get_elem?, get_elem?-set_self, get_elem?-set_ne, set,
  length-take, get_elem?-lt, get_elem?-take, get_elem?-append_last, get_elem?-append_ne, lt→ltb,
}
use native.Mathlib.Decide.{ℕ_discrete}
use libutp.AckList.{AckList, set_ack_index, back, pop_back}

pub record IsAckList (a : AckList) : Type 0 where
  pub indexed : (i s : ℕ) → get_elem? a.ack_sockets i ≡ some s → a.ack_index s ≡ some i
  pub listed : (i s : ℕ) → a.ack_index s ≡ some i → get_elem? a.ack_sockets i ≡ some s

pub back_lem : (xs : List ℕ) → 0 < length xs → back xs ≡ get_elem? xs (length xs - 1)
unfolding back
back_lem [] h = absurd (omega arith)
back_lem (x ∷ xs) h = ap (get_elem? (x ∷ xs)) (omega arith)

pub some-inj : {i j : ℕ} → some i ≡ some j → i ≡ j
some-inj e = cc

pub none-ne-some : {i : ℕ} → none ≢ some i
none-ne-some e = cc

-- The index after a write, at the socket itself and at others.
pub index_self : (index : ℕ → Option ℕ) (s : ℕ) (i : Option ℕ) → set_ack_index index s i s ≡ i
unfolding set_ack_index
index_self index s i = rw ((==_iff s s).1 refl) refl

pub index_other :
    (index : ℕ → Option ℕ) (s t : ℕ) (i : Option ℕ) → t ≢ s → set_ack_index index s i t ≡ index t
unfolding set_ack_index
index_other index s t i ne = rw (==-false t s ne) refl

module _ (a : AckList) (s : ℕ) (v : IsAckList a) (absent : a.ack_index s ≡ none) where
  abbrev pub appended : AckList
  appended = record {
    ack_sockets = a.ack_sockets ++ s ∷ [];
    ack_index = set_ack_index a.ack_index s (some (length a.ack_sockets));
  }

  pub not_itself : (t i : ℕ) → a.ack_index t ≡ some i → t ≢ s
  not_itself t i e same = none-ne-some (sym absent ∙ ap a.ack_index (sym same) ∙ e)

  pub appended_indexed :
      (i t : ℕ) → get_elem? appended.ack_sockets i ≡ some t → appended.ack_index t ≡ some i
  appended_indexed i t e = elim (ℕ_discrete i (length a.ack_sockets)) [
    | yes last ↦
        let same : s ≡ t = some-inj (
          sym (get_elem?-append_last a.ack_sockets s)
          ∙ ap (get_elem? appended.ack_sockets) (sym last)
          ∙ e) in
        ap appended.ack_index (sym same) ∙ index_self a.ack_index s _ ∙ ap some (sym last)
    | no before ↦
        let old = v.indexed i t (sym (get_elem?-append_ne a.ack_sockets s i before) ∙ e) in
        index_other a.ack_index s t _ (not_itself t i old) ∙ old
  ]

  pub appended_listed :
      (i t : ℕ) → appended.ack_index t ≡ some i → get_elem? appended.ack_sockets i ≡ some t
  appended_listed i t e = elim (ℕ_discrete t s) [
    | yes itself ↦
        let last : length a.ack_sockets ≡ i =
          some-inj (sym (index_self a.ack_index s _) ∙ ap appended.ack_index (sym itself) ∙ e) in
        ap (get_elem? appended.ack_sockets) (sym last)
        ∙ get_elem?-append_last a.ack_sockets s
        ∙ ap some (sym itself)
    | no other ↦
        let old = v.listed i t (sym (index_other a.ack_index s t _ other) ∙ e) in
        get_elem?-append_ne a.ack_sockets s i (omega (arith, get_elem?-lt a.ack_sockets i t old))
        ∙ old
  ]

-- Taking the socket at `idx` off a list whose last socket is `last`.
module _ (a : AckList) (s idx last : ℕ) (v : IsAckList a) (e : a.ack_index s ≡ some idx)
    (el : get_elem? a.ack_sockets (length a.ack_sockets - 1) ≡ some last) where
  abbrev pub removed : AckList
  removed = record {
    ack_sockets = pop_back (set a.ack_sockets idx last);
    ack_index = set_ack_index (set_ack_index a.ack_index last (some idx)) s none;
  }

  pub in_list : idx < length a.ack_sockets
  in_list = get_elem?-lt a.ack_sockets idx s (v.listed idx s e)

  -- A place below the last holds what it held, but for the gap.
  kept_place :
      (i : ℕ)
      → i < length a.ack_sockets - 1
      → i ≢ idx
      → get_elem? removed.ack_sockets i ≡ get_elem? a.ack_sockets i
  unfolding pop_back
  kept_place i below ne =
      rw
        (
          get_elem?-take (length (set a.ack_sockets idx last) - 1) (set a.ack_sockets idx last) i,
          lt→ltb i (length (set a.ack_sockets idx last) - 1)
              (omega (arith, length-set a.ack_sockets idx last)),
        )
        (get_elem?-set_ne a.ack_sockets last (λ z. ne (sym z)))

  filled_gap : idx < length a.ack_sockets - 1 → get_elem? removed.ack_sockets idx ≡ some last
  unfolding pop_back
  filled_gap below =
      rw
        (
          get_elem?-take (length (set a.ack_sockets idx last) - 1) (set a.ack_sockets idx last) idx,
          lt→ltb idx (length (set a.ack_sockets idx last) - 1)
              (omega (arith, length-set a.ack_sockets idx last)),
        )
        (get_elem?-set_self a.ack_sockets idx last in_list)

  pub shorter : length removed.ack_sockets ≡ length a.ack_sockets - 1
  unfolding pop_back
  shorter = omega (
    arith,
    length-take (length (set a.ack_sockets idx last) - 1) (set a.ack_sockets idx last),
    length-set a.ack_sockets idx last,
  )

  -- The three ways in which an index of the new list is found.
  pub index_gone : removed.ack_index s ≡ none
  index_gone = index_self (set_ack_index a.ack_index last (some idx)) s none

  index_moved : last ≢ s → removed.ack_index last ≡ some idx
  index_moved ne =
      index_other (set_ack_index a.ack_index last (some idx)) s last none ne
      ∙ index_self a.ack_index last (some idx)

  index_kept : (t : ℕ) → t ≢ s → t ≢ last → removed.ack_index t ≡ a.ack_index t
  index_kept t ne ne' =
      index_other (set_ack_index a.ack_index last (some idx)) s t none ne
      ∙ index_other a.ack_index last t (some idx) ne'

  -- Two places that hold sockets of the given names.
  at_idx : get_elem? a.ack_sockets idx ≡ some s
  at_idx = v.listed idx s e

  same_place :
      (i j t : ℕ) → get_elem? a.ack_sockets i ≡ some t → get_elem? a.ack_sockets j ≡ some t → i ≡ j
  same_place i j t ei ej = some-inj (sym (v.indexed i t ei) ∙ v.indexed j t ej)

  same_socket :
      (i t u : ℕ) → get_elem? a.ack_sockets i ≡ some t → get_elem? a.ack_sockets i ≡ some u → t ≡ u
  same_socket i t u et eu = some-inj (sym et ∙ eu)

  removed_indexed :
      (i t : ℕ) → get_elem? removed.ack_sockets i ≡ some t → removed.ack_index t ≡ some i
  removed_indexed i t h =
      let below : i < length a.ack_sockets - 1 =
        omega (arith, get_elem?-lt removed.ack_sockets i t h, shorter) in
      elim (ℕ_discrete i idx) [
        | yes gap ↦
            let is_last : last ≡ t =
              some-inj (
                sym (filled_gap (omega arith))
                ∙ ap (get_elem? removed.ack_sockets) (sym gap)
                ∙ h) in
            ap removed.ack_index (sym is_last)
            ∙ index_moved (λ z. absurd (
                omega (
                  arith,
                  same_place idx (length a.ack_sockets - 1) last (at_idx ∙ ap some (sym z)) el,
                )))
            ∙ ap some (sym gap)
        | no ne ↦
            let old = sym (kept_place i below ne) ∙ h in
            index_kept t (λ z. ne (same_place i idx s (old ∙ ap some z) at_idx))
              (λ z.
                absurd (
                  omega (arith, same_place i (length a.ack_sockets - 1) last (old ∙ ap some z) el)))
            ∙ v.indexed i t old
      ]

  removed_listed :
      (i t : ℕ) → removed.ack_index t ≡ some i → get_elem? removed.ack_sockets i ≡ some t
  removed_listed i t h =
      let other : t ≢ s = λ z. none-ne-some (sym index_gone ∙ ap removed.ack_index (sym z) ∙ h) in
      elim (ℕ_discrete t last) [
        | yes is_last ↦
            let gap : idx ≡ i = some-inj (
              sym (index_moved (λ z. other (is_last ∙ z)))
              ∙ ap removed.ack_index (sym is_last)
              ∙ h) in
            let apart : idx ≢ length a.ack_sockets - 1 = λ z.
              other
                (is_last ∙ same_socket idx last s (ap (get_elem? a.ack_sockets) z ∙ el) at_idx) in
            ap (get_elem? removed.ack_sockets) (sym gap)
            ∙ filled_gap (omega (arith, in_list, apart))
            ∙ ap some (sym is_last)
        | no ne ↦
            let old = v.listed i t (sym (index_kept t other ne) ∙ h) in
            let not_gap : i ≢ idx = λ z.
              other (same_socket idx t s (ap (get_elem? a.ack_sockets) (sym z) ∙ old) at_idx) in
            let not_last : i ≢ length a.ack_sockets - 1 =
              λ z. ne (same_socket i t last old (ap (get_elem? a.ack_sockets) z ∙ el)) in
            kept_place i (omega (arith, get_elem?-lt a.ack_sockets i t old, not_last)) not_gap ∙ old
      ]

  pub removed-IsAckList : IsAckList removed
  removed-IsAckList = record { indexed = removed_indexed; listed = removed_listed }

  pub others_stay : (t : ℕ) → t ≢ s → (removed.ack_index t ≡ none) ↔ (a.ack_index t ≡ none)
  others_stay t ne = elim (ℕ_discrete t last) [
    | no other ↦ rw (index_kept t ne other) (λ h. h, λ h. h)
    | yes is_last ↦
        let was = v.indexed (length a.ack_sockets - 1) last el in
        let now = index_moved (λ z. ne (is_last ∙ z)) in
        (
          λ h. absurd (none-ne-some (sym h ∙ ap removed.ack_index is_last ∙ now)),
          λ h. absurd (none-ne-some (sym h ∙ ap a.ack_index is_last ∙ was)),
        )
  ]
