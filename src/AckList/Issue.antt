-- ===== src/AckList/Issue.antt =====
-- The deferred acknowledgements are all sent, each once.
use libutp.Base.{
  ℕ, zero, suc, ◌+◌, ◌-◌, ◌<◌, ◌≡◌, refl, sym, ap, ◌∙◌, arith, List, [], ◌∷◌, ◌++◌, none, some,
  ◌>>=◌, length, get_elem?, Option-cases, inl, inr, get_elem?-append_last, length-append, set, take,
  take-length, lt→ltb,
}
use mathlib.Core.List.{reverse, reverse_aux, reverse-cons, reverse-reverse}
use libutp.AckList.{AckList, pop_back, remove_ack, issue_from, issue_deferred_acks}
use libutp.AckList.Places.{IsAckList, removed, removed-IsAckList, none-ne-some}
use libutp.AckList.Membership.{remove_ack-listed}

-- Taking the first socket off puts the last one in its place.
first_removed :
    (a : AckList) (s last : ℕ) (mid : List ℕ)
    → IsAckList a
    → a.ack_sockets ≡ s ∷ (mid ++ last ∷ [])
    → (a' : AckList) × (remove_ack a s ≡ some a') × IsAckList a' × (a'.ack_sockets ≡ last ∷ mid)
unfolding pop_back
first_removed a s last mid v e = (
  removed a s 0 last v first el,
  remove_ack-listed a s 0 last v first el,
  removed-IsAckList a s 0 last v first el,
  ap (λ l. take (length (set l 0 last) - 1) (set l 0 last)) e
      ∙ ap (λ n. take n (last ∷ (mid ++ last ∷ []))) {y = suc (length mid)}
          (omega (arith, length-append mid (last ∷ [])))
      ∙ ap (λ l. last ∷ l) (take-length mid (last ∷ [])),
)
  where
    first : a.ack_index s ≡ some 0
    first = v.indexed 0 s (ap (λ l. get_elem? l 0) e)

    el : get_elem? a.ack_sockets (length a.ack_sockets - 1) ≡ some last
    el =
        ap (λ l. get_elem? l (length l - 1)) e
        ∙ ap (get_elem? (s ∷ (mid ++ last ∷ []))) {y = suc (length mid)}
            (omega (arith, length-append mid (last ∷ [])))
        ∙ get_elem?-append_last mid last

length-reverse_aux : (xs acc : List ℕ) → length (reverse_aux xs acc) ≡ length xs + length acc
length-reverse_aux [] acc = omega arith
length-reverse_aux (x ∷ xs) acc = omega (arith, length-reverse_aux xs (x ∷ acc))

length-reverse : (xs : List ℕ) → length (reverse xs) ≡ length xs
length-reverse xs = omega (arith, length-reverse_aux xs [])

only_removed :
    (a : AckList) (s : ℕ)
    → IsAckList a
    → a.ack_sockets ≡ s ∷ []
    → (a' : AckList) × (remove_ack a s ≡ some a') × IsAckList a' × (a'.ack_sockets ≡ [])
unfolding pop_back
only_removed a s v e = (
  removed a s 0 s v first el,
  remove_ack-listed a s 0 s v first el,
  removed-IsAckList a s 0 s v first el,
  ap (λ l. take (length (set l 0 s) - 1) (set l 0 s)) e,
)
  where
    first : a.ack_index s ≡ some 0
    first = v.indexed 0 s (ap (λ l. get_elem? l 0) e)

    el : get_elem? a.ack_sockets (length a.ack_sockets - 1) ≡ some s
    el = ap (λ l. get_elem? l (length l - 1)) e

-- The list is empty, and nobody is on it.
pub record IsDrained (a : AckList) : Type 0 where
  pub no_sockets : a.ack_sockets ≡ []
  pub no_index : (s : ℕ) → a.ack_index s ≡ none

empty-IsDrained : (a : AckList) → IsAckList a → a.ack_sockets ≡ [] → IsDrained a
empty-IsDrained a v e = record {
  no_sockets = e;
  no_index = λ s. elim (Option-cases (a.ack_index s)) [
    | inl absent ↦ absent
    | inr (i, listed) ↦
        absurd (none-ne-some (ap (λ l. get_elem? l i) (sym e) ∙ v.listed i s listed))
  ];
}

-- One round at place 0, which the next round finds again.
issue_step :
    (fuel : ℕ) (a a' : AckList) (s : ℕ) (ss : List ℕ)
    → a.ack_sockets ≡ s ∷ ss
    → remove_ack a s ≡ some a'
    → issue_from (suc fuel) 0 a ≡ (issue_from fuel 0 a' >>= λ rest. some (rest.0, s ∷ rest.1))
unfolding issue_from
issue_step fuel a a' s ss e removes =
    simp (e, lt→ltb 0 (suc (length ss)) (omega arith), removes) refl

issue_end : (fuel : ℕ) (a : AckList) → a.ack_sockets ≡ [] → issue_from (suc fuel) 0 a ≡ some (a, [])
unfolding issue_from
issue_end fuel a e = simp e refl

issue_from_lem :
    (fuel : ℕ) (a : AckList) (s : ℕ) (rest : List ℕ)
    → length rest + 1 < fuel
    → IsAckList a
    → a.ack_sockets ≡ s ∷ reverse rest
    → (left : AckList) × (issue_from fuel 0 a ≡ some (left, s ∷ rest)) × IsDrained left
issue_from_lem zero a s rest enough v e = absurd (omega arith)
issue_from_lem (suc zero) a s rest enough v e = absurd (omega arith)
issue_from_lem (suc (suc fuel)) a s [] enough v e =
    let (a', removes, v', empty) = only_removed a s v e in
    (
      a',
      issue_step (suc fuel) a a' s [] e removes ∙ rw (issue_end fuel a' empty) refl,
      empty-IsDrained a' v' empty,
    )
issue_from_lem (suc (suc fuel)) a s (last ∷ rest) enough v e =
    let (a', removes, v', moved) =
      first_removed a s last (reverse rest) v (e ∙ ap (λ l. s ∷ l) (reverse-cons last rest)) in
    let (left, issues, drained) = issue_from_lem (suc fuel) a' last rest (omega arith) v' moved in
    (left, issue_step (suc fuel) a a' s _ e removes ∙ rw issues refl, drained)

-- The order in which the sockets of a list send.
pub sending_order : List ℕ → List ℕ
sending_order [] = []
sending_order (s ∷ ss) = s ∷ reverse ss

-- Where every index is its socket's place, `issue_deferred_acks` ends, with the list empty and no index left. Every socket that was on the
-- list has sent once, the first one first and the others from the last to the second.
pub issue_deferred_acks_lem :
    (a : AckList)
    → IsAckList a
    → (left : AckList) × (issue_deferred_acks a ≡ some (left, sending_order a.ack_sockets))
      × IsDrained left
unfolding issue_deferred_acks sending_order
issue_deferred_acks_lem a v = go a.ack_sockets refl
  where
    go :
        (ss : List ℕ)
        → a.ack_sockets ≡ ss
        → (left : AckList) × (issue_deferred_acks a ≡ some (left, sending_order ss))
          × IsDrained left
    go [] e =
        (a, ap (λ l. issue_from (length l + 1) 0 a) e ∙ issue_end 0 a e, empty-IsDrained a v e)
    go (s ∷ ss) e =
        let (left, issues, drained) =
          issue_from_lem (length a.ack_sockets + 1) a s (reverse ss)
            (omega (arith, ap length e, length-reverse ss)) v
            (e ∙ ap (λ l. s ∷ l) (sym (reverse-reverse ss))) in
        (left, issues, drained)
