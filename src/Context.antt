-- ===== src/Context.antt =====
-- src/utp_process.cpp and src/utp_context.cpp: the context, which finds the socket that a datagram is
-- for, and the cache of the resets that were sent. A registered socket is its key, the peer's address and
-- the number that it receives under, with the number that it sends under. What is done to a socket is an
-- action: the handlers of a socket are modelled in Receive, Send and Connection.
pub mod Expire
pub mod Lookup
pub mod Routing
pub mod Resets
pub mod Strays
pub mod Accepted
pub mod Rounds
mod Tests
use libutp.Base.{
  ℕ, zero, suc, ◌+◌, ◌-◌, ◌^◌, Bool, true, false, not, ◌&&◌, ◌||◌, List, [], ◌∷◌, ◌++◌,
}
use libutp.Base.{
  Option, none, some, ◌>>=◌, u32, u64, sub32, sub64, length, ltb, leb, ◌==◌, if◌then◌else◌,
}
use libutp.Wire.{
  PacketFormatV1, header_at, utp_version, header_size, type, version, st_num_states, st_reset,
  st_syn,
}
use libutp.Address.{Address, same_address}

abbrev pub rst_info_limit : ℕ
rst_info_limit = 1000

abbrev pub max_sockets : ℕ
max_sockets = 3000

-- A socket as the map knows it.
pub record Peer : Type 0 where
  pub addr : Address
  pub recv_id : ℕ
  pub send_id : ℕ

pub record RstInfo : Type 0 where
  pub addr : Address
  pub connid : ℕ
  pub ack_nr : ℕ
  pub timestamp : ℕ

-- `last_socket` is the pointer to the socket that was found last.
pub record Context : Type 0 where
  pub sockets : List Peer
  pub last_socket : Option Peer
  pub rst_info : List RstInfo
  pub current_ms : ℕ
  pub last_check : ℕ

-- What the callbacks return while a datagram is processed.
pub record Calls : Type 0 where
  pub milliseconds : ℕ
  pub random : ℕ
  pub firewall : Bool

-- A socket's `on_reset`, `process_incoming`, `on_icmp_fragmentation` and `on_icmp_error`; the reset that
-- is sent, with its numbers; and a new socket, which takes the SYN's number.
pub data Action : Type 0 where
  on_reset process icmp_fragmentation icmp_error : Peer → Action
  send_rst : Address → ℕ → ℕ → ℕ → Action
  accept : Peer → ℕ → Action

-- `operator==` of the map's keys.
unfoldable pub has_key : Address → ℕ → Peer → Bool
has_key addr id p = p.recv_id == id && same_address p.addr addr

-- The map's `find`.
unfoldable pub find : List Peer → Address → ℕ → Option Peer
unfolding has_key
find [] addr id = none
find (p ∷ ps) addr id = if has_key addr id p then some p else find ps addr id

unfoldable pub is_some : Option Peer → Bool
is_some none = false
is_some (some p) = true

-- A socket under another number, which must send under this one.
unfoldable pub find_sender : List Peer → Address → ℕ → ℕ → Option Peer
unfolding find
find_sender ps addr id recv_id = elim (find ps addr recv_id) [
  | none ↦ none
  | some p ↦ if p.send_id == id then some p else none
]

unfoldable pub or_else : Option Peer → Option Peer → Option Peer
or_else none o = o
or_else (some p) o = some p

unfoldable pub find_socket_for_id : List Peer → Address → ℕ → Option Peer
unfolding find find_sender or_else
find_socket_for_id ps addr id =
    or_else (find ps addr id)
      (or_else (find_sender ps addr id (u32 (id + 1))) (find_sender ps addr id (sub32 id 1)))

-- The socket that was found last, if it is the one, or the map's, which is then found last.
unfoldable pub cached : Context → Address → ℕ → Option Peer
unfolding find has_key
cached c addr id = elim c.last_socket [
  | none ↦ find c.sockets addr id
  | some p ↦ if has_key addr id p then some p else find c.sockets addr id
]

-- The record of the reset for a packet.
unfoldable pub is_answered : Address → ℕ → ℕ → RstInfo → Bool
is_answered addr id seq_nr r = r.connid == id && same_address r.addr addr && r.ack_nr == seq_nr

-- The search of the cache: the first record for the packet gets the new time.
unfoldable pub touch : ℕ → Address → ℕ → ℕ → List RstInfo → Option (List RstInfo)
unfolding is_answered
touch now addr id seq_nr [] = none
touch now addr id seq_nr (r ∷ rs) =
    let rest = touch now addr id seq_nr rs in
    if is_answered addr id seq_nr r
    then some (record r { timestamp = now } ∷ rs)
    else (do rs' ← rest; some (r ∷ rs'))

-- A packet that is no SYN and has no socket: a reset is sent, but one for each packet, and no more than
-- the cache can record.
unfoldable pub answer_stray : Context → Calls → Address → ℕ → ℕ → Context × List Action
unfolding touch
answer_stray c calls addr id seq_nr =
    let now = calls.milliseconds in
    let r : RstInfo = record { addr = addr; connid = id; ack_nr = seq_nr; timestamp = now } in
    let c1 = record c { current_ms = now } in
    elim (touch now addr id seq_nr c.rst_info) [
      | some rst_info ↦ (record c1 { rst_info = rst_info }, [])
      | none ↦ if ltb rst_info_limit (length c.rst_info) then (c1, []) else (
        record c1 { rst_info = c.rst_info ++ r ∷ [] },
        send_rst addr id seq_nr calls.random ∷ [],
      )
    ]

unfoldable pub register_socket : Context → Peer → Context
register_socket c p = record c { sockets = p ∷ c.sockets }

-- A SYN: a new socket, unless there is one, there are too many or the firewall is against it. It
-- receives under the number after the SYN's, and its `initialize` refreshes the clock.
unfoldable pub answer_syn : Context → Calls → Address → ℕ → ℕ → Context × List Action
unfolding is_some find register_socket
answer_syn c calls addr id seq_nr =
    let p : Peer = record { addr = addr; recv_id = u32 (id + 1); send_id = id } in
    if is_some (find c.sockets addr (u32 (id + 1)))
    then (c, [])
    else if ltb max_sockets (length c.sockets)
    then (c, [])
    else if calls.firewall
    then (c, [])
    else (register_socket (record c { current_ms = calls.milliseconds }) p, accept p seq_nr ∷ [])

-- What `process_udp` does with a header of a version that it knows.
unfoldable pub route : Context → Calls → Address → PacketFormatV1 → Context × List Action
unfolding find_socket_for_id cached answer_stray answer_syn type
route c calls addr h =
    if type h == st_reset
    then elim (find_socket_for_id c.sockets addr h.connid) [
      | none ↦ (c, [])
      | some p ↦ (c, on_reset p ∷ [])
    ]
    else if type h == st_syn
    then answer_syn c calls addr h.connid h.seq_nr
    else elim (cached c addr h.connid) [
      | none ↦ answer_stray c calls addr h.connid h.seq_nr
      | some p ↦ (record c { last_socket = some p }, process p ∷ [])
    ]

-- The checks of a datagram: `none` if it is not one of this protocol.
unfoldable pub utp_header : List ℕ → Option PacketFormatV1
unfolding utp_version header_at
utp_header buffer = do
  h ← header_at buffer
  if ltb (length buffer) header_size
      then none
      else if not (utp_version h == 1)
      then none
      else some h

-- The result says whether the datagram was taken.
unfoldable pub process_udp : Context → Calls → List ℕ → Address → Context × ℕ × List Action
unfolding utp_header route
process_udp c calls buffer addr = elim (utp_header buffer) [
  | none ↦ (c, 0, [])
  | some h ↦ let (c', actions) = route c calls addr h in (c', 1, actions)
]

unfoldable pub parse_icmp_payload : Context → List ℕ → Address → Option Peer
unfolding utp_header find_socket_for_id
parse_icmp_payload c buffer addr = do
  h ← utp_header buffer
  find_socket_for_id c.sockets addr h.connid

unfoldable pub process_icmp_fragmentation : Context → List ℕ → Address → ℕ × List Action
unfolding parse_icmp_payload
process_icmp_fragmentation c buffer addr = elim (parse_icmp_payload c buffer addr) [
  | none ↦ (0, [])
  | some p ↦ (1, icmp_fragmentation p ∷ [])
]

unfoldable pub process_icmp_error : Context → List ℕ → Address → ℕ × List Action
unfolding parse_icmp_payload
process_icmp_error c buffer addr = elim (parse_icmp_payload c buffer addr) [
  | none ↦ (0, [])
  | some p ↦ (1, icmp_error p ∷ [])
]
