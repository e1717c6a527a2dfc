-- ===== src/AckList/Tests.antt =====
-- Runs of the list, and its theorems at a list of three.
use libutp.Base.{ℕ, ◌≡◌, ◌≢◌, ◌↔◌, refl, List, [], ◌∷◌, none, some}
use mathlib.Core.Option
use libutp.AckList.{AckList, schedule_ack, remove_ack, issue_from, issue_deferred_acks}
use libutp.AckList.Places.{IsAckList, none-ne-some}
use libutp.AckList.Membership.{remove_ack_lem, schedule_ack_lem}
use libutp.AckList.Issue.{IsDrained, sending_order, issue_deferred_acks_lem}

abbrev none_listed : AckList
none_listed = record { ack_sockets = []; ack_index = λ s. none }

none_listed-IsAckList : IsAckList none_listed
none_listed-IsAckList = record {
  indexed = λ i s e. absurd (none-ne-some e);
  listed = λ i s e. absurd (none-ne-some e);
}

abbrev three : AckList
unfolding schedule_ack
three = schedule_ack (schedule_ack (schedule_ack none_listed 7) 5) 9

three-IsAckList : IsAckList three
unfolding schedule_ack
three-IsAckList =
    (schedule_ack_lem _ 9
      (schedule_ack_lem _ 5 (schedule_ack_lem none_listed 7 none_listed-IsAckList).0).0).0

remove_run : Option.map {B = List ℕ} (λ a. a.ack_sockets) (remove_ack three 7) ≡ some (9 ∷ 5 ∷ [])
unfolding remove_ack schedule_ack
remove_run = refl

issue_run : Option.map {B = List ℕ} (λ r. r.1) (issue_deferred_acks three) ≡ some (7 ∷ 9 ∷ 5 ∷ [])
unfolding issue_deferred_acks issue_from remove_ack schedule_ack
issue_run = refl

remove_ack_lem_example :
    (a' : AckList) × (remove_ack three 7 ≡ some a')
    × IsAckList a'
    × (a'.ack_index 7 ≡ none)
    × ((t : ℕ) → t ≢ 7 → (a'.ack_index t ≡ none) ↔ (three.ack_index t ≡ none))
remove_ack_lem_example = remove_ack_lem three 7 three-IsAckList

schedule_ack_lem_example :
    let a' = schedule_ack three 12 in
    IsAckList a'
    × (a'.ack_index 12 ≢ none)
    × ((t : ℕ) → t ≢ 12 → a'.ack_index t ≡ three.ack_index t)
    × (three.ack_index 12 ≢ none → a' ≡ three)
schedule_ack_lem_example = schedule_ack_lem three 12 three-IsAckList

issue_deferred_acks_lem_example :
    (left : AckList) × (issue_deferred_acks three ≡ some (left, sending_order three.ack_sockets))
    × IsDrained left
issue_deferred_acks_lem_example = issue_deferred_acks_lem three three-IsAckList
