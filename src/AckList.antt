-- ===== src/AckList.antt =====
-- src/utp_context.cpp: the list of sockets that owe an acknowledgement, which knows no duplicates and
-- is left by moving the last socket into the gap. A socket is a number; `ack_index` is the field
-- `ida_` of every socket, with `none` for -1. A place is an exact `int` below 2 ^ 31 sockets.
pub mod Places
pub mod Membership
pub mod Issue
mod Tests
use libutp.Base.{ℕ, zero, suc, ◌+◌, ◌-◌, List, [], ◌∷◌, ◌++◌, Option, none, some, ◌>>=◌}
use libutp.Base.{u64, sub64, length, get_elem?, set, take, ltb, ◌==◌, if◌then◌else◌}

pub record AckList : Type 0 where
  pub ack_sockets : List ℕ
  pub ack_index : ℕ → Option ℕ

-- `set_ack_index`
unfoldable pub set_ack_index : (ℕ → Option ℕ) → ℕ → Option ℕ → ℕ → Option ℕ
set_ack_index index s i t = if t == s then i else index t

unfoldable pub schedule_ack : AckList → ℕ → AckList
unfolding set_ack_index
schedule_ack a s = elim (a.ack_index s) [
  | some i ↦ a
  | none ↦ record {
    ack_sockets = a.ack_sockets ++ s ∷ [];
    ack_index = set_ack_index a.ack_index s (some (length a.ack_sockets));
  }
]

-- `back()` of an empty list is undefined, hence `none`.
unfoldable pub back : List ℕ → Option ℕ
back [] = none
back (s ∷ ss) = get_elem? (s ∷ ss) (length ss)

unfoldable pub pop_back : List ℕ → List ℕ
pop_back ss = take (length ss - 1) ss

unfoldable pub remove_ack : AckList → ℕ → Option AckList
unfolding set_ack_index back pop_back
remove_ack a s = elim (a.ack_index s) [
  | none ↦ some a
  | some idx ↦ do
    last ← back a.ack_sockets
    some (record {
      ack_sockets = pop_back (set a.ack_sockets idx last);
      ack_index = set_ack_index (set_ack_index a.ack_index last (some idx)) s none;
    })
]

-- The loop at `i`: the acknowledgement takes its socket off the list, and `i--` undoes the `i++`.
-- The result is what is left, and the sockets that have sent.
unfoldable pub issue_from : ℕ → ℕ → AckList → Option (AckList × List ℕ)
unfolding remove_ack
issue_from zero i a = none
issue_from (suc fuel) i a =
    if ltb i (length a.ack_sockets)
    then (do
      conn ← get_elem? a.ack_sockets i
      a' ← remove_ack a conn
      (left, sent) ← issue_from fuel (u64 (sub64 i 1 + 1)) a'
      some (left, conn ∷ sent))
    else some (a, [])

-- Every round takes a socket off the list.
unfoldable pub issue_deferred_acks : AckList → Option (AckList × List ℕ)
unfolding issue_from
issue_deferred_acks a = issue_from (length a.ack_sockets + 1) 0 a
