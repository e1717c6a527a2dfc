-- ===== src/AckList/Membership.antt =====
-- What `schedule_ack` and `remove_ack` do to the list's members.
use libutp.Base.{
  ℕ, ◌-◌, ◌≡◌, ◌≢◌, ◌↔◌, refl, sym, ◌∙◌, arith, none, some, inl, inr, Option-cases, length,
  get_elem?, get_elem?-lt, get_elem?-some,
}
use libutp.AckList.{AckList, schedule_ack, remove_ack}
use libutp.AckList.Places.{
  IsAckList, removed, removed-IsAckList, index_gone, others_stay, back_lem, appended,
  appended_indexed, appended_listed, index_self, index_other, none-ne-some,
}

pub remove_ack-listed :
    (a : AckList) (s idx last : ℕ) (v : IsAckList a) (e : a.ack_index s ≡ some idx)
    (el : get_elem? a.ack_sockets (length a.ack_sockets - 1) ≡ some last)
    → remove_ack a s ≡ some (removed a s idx last v e el)
unfolding remove_ack
remove_ack-listed a s idx last v e el =
    let listed = get_elem?-lt a.ack_sockets idx s (v.listed idx s e) in
    rw (e, back_lem a.ack_sockets (omega (arith, listed)), el, remove_ack) refl

-- Where every index is its socket's place, `remove_ack` finds a last socket, so it is defined. The socket is off the list after it, all others
-- are on it exactly if they were, and every index is again its socket's place.
pub remove_ack_lem :
    (a : AckList) (s : ℕ)
    → IsAckList a
    → (a' : AckList) × (remove_ack a s ≡ some a')
      × IsAckList a'
      × (a'.ack_index s ≡ none)
      × ((t : ℕ) → t ≢ s → (a'.ack_index t ≡ none) ↔ (a.ack_index t ≡ none))
unfolding remove_ack
remove_ack_lem a s v = elim (Option-cases (a.ack_index s)) [
  | inl absent ↦ (a, rw (absent, remove_ack) refl, v, absent, λ t ne. (λ h. h, λ h. h))
  | inr (idx, e) ↦
      let listed = get_elem?-lt a.ack_sockets idx s (v.listed idx s e) in
      let (last, el) =
        get_elem?-some a.ack_sockets (length a.ack_sockets - 1) (omega (arith, listed)) in
      (
        removed a s idx last v e el,
        remove_ack-listed a s idx last v e el,
        removed-IsAckList a s idx last v e el,
        index_gone a s idx last v e el,
        others_stay a s idx last v e el,
      )
]

already_listed : (a : AckList) (s i : ℕ) → a.ack_index s ≡ some i → schedule_ack a s ≡ a
unfolding schedule_ack
already_listed a s i e = rw (e, schedule_ack) refl

newly_listed :
    (a : AckList) (s : ℕ) (v : IsAckList a) (absent : a.ack_index s ≡ none)
    → schedule_ack a s ≡ appended a s v absent
unfolding schedule_ack
newly_listed a s v absent = rw (absent, schedule_ack) refl

-- After `schedule_ack` the socket is on the list, and every other socket is where it was. A socket
-- that was on the list keeps its place. Every index is again its socket's place, so that no socket
-- is on the list twice.
pub schedule_ack_lem :
    (a : AckList) (s : ℕ)
    → IsAckList a
    → let a' = schedule_ack a s in
      IsAckList a'
      × (a'.ack_index s ≢ none)
      × ((t : ℕ) → t ≢ s → a'.ack_index t ≡ a.ack_index t)
      × (a.ack_index s ≢ none → a' ≡ a)
schedule_ack_lem a s v = elim (Option-cases (a.ack_index s)) [
  | inr (i, e) ↦
      rw (already_listed a s i e) (v, (λ z. none-ne-some (sym z ∙ e)), λ t ne. refl, λ h. refl)
  | inl absent ↦ rw (newly_listed a s v absent) (
    record { indexed = appended_indexed a s v absent; listed = appended_listed a s v absent },
    (λ z. none-ne-some (sym z ∙ index_self a.ack_index s _)),
    λ t ne. index_other a.ack_index s t _ ne,
    λ h. absurd (h absent),
  )
]
