-- ===== src/Context/Expire.antt =====
-- src/utp_context.cpp: `check_timeouts` of the context, and the removal of a socket.
use libutp.Base.{ℕ, zero, suc, ◌+◌, ◌-◌, Bool, List, [], ◌∷◌, Option, none, some, ◌>>=◌}
use libutp.Base.{u32, sub64, length, get_elem?, set, take, ltb, leb, if◌then◌else◌}
use libutp.Context.{Context, Peer, RstInfo, has_key, find}

abbrev pub timeout_check_interval : ℕ
timeout_check_interval = 500

abbrev pub rst_info_timeout : ℕ
rst_info_timeout = 10000

-- The difference of the times is compared as an unsigned number.
unfoldable pub is_expired : ℕ → RstInfo → Bool
is_expired now r = leb rst_info_timeout (u32 (sub64 now r.timestamp))

-- The loop at `i`: a record that has expired is replaced by the last one, which is looked at next.
unfoldable pub expire_from : ℕ → ℕ → ℕ → List RstInfo → Option (List RstInfo)
unfolding is_expired
expire_from zero now i rs = none
expire_from (suc fuel) now i rs = elim (get_elem? rs i) [
  | none ↦ some rs
  | some r ↦ elim (get_elem? rs (length rs - 1)) [
    | none ↦ none
    | some back ↦
        if is_expired now r
        then expire_from fuel now i (take (length rs - 1) (set rs i back))
        else expire_from fuel now (i + 1) rs
  ]
]

-- The map's `erase` of the socket with a key.
unfoldable pub erase : List Peer → Peer → List Peer
unfolding has_key
erase [] s = []
erase (p ∷ ps) s = if has_key s.addr s.recv_id p then ps else p ∷ erase ps s

-- `on_socket_destroyed`: the pointer to the socket that was found last is cleared if it is this one's.
unfoldable pub on_socket_destroyed : Context → Peer → Context
unfolding has_key
on_socket_destroyed c s = elim c.last_socket [
  | none ↦ c
  | some p ↦ if has_key s.addr s.recv_id p then record c { last_socket = none } else c
]

unfoldable pub destroy_socket : Context → Peer → Context
unfolding find erase on_socket_destroyed
destroy_socket c s = elim (find c.sockets s.addr s.recv_id) [
  | none ↦ c
  | some p ↦ on_socket_destroyed (record c { sockets = erase c.sockets s }) p
]

-- The loop over the sockets that there were: `dies` says which of them are to be destroyed after their
-- own `check_timeouts`.
unfoldable pub destroy_from : (Peer → Bool) → List Peer → Context → Context
unfolding destroy_socket
destroy_from dies [] c = c
destroy_from dies (p ∷ ps) c = destroy_from dies ps (if dies p then destroy_socket c p else c)

unfoldable pub check_timeouts : Context → ℕ → (Peer → Bool) → Option Context
unfolding expire_from destroy_from
check_timeouts c milliseconds dies =
    let c1 = record c { current_ms = milliseconds } in
    if ltb (sub64 milliseconds c.last_check) timeout_check_interval then some c1 else (do
      rst_info ← expire_from (length c.rst_info + 1) milliseconds 0 c.rst_info
      some (
          destroy_from dies c.sockets
            (record c1 { last_check = milliseconds; rst_info = rst_info })))
