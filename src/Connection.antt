-- ===== src/Connection.antt =====
-- src/utp_socket.cpp, src/utp_socket.hpp, src/utp/connection_state.hpp: the life of a connection. Of
-- a socket this is the state with the flags that decide on it; what a handler sends or reports is a
-- list of events. A test on the windows, the timers or a packet is an argument of the handler.
pub mod Lifecycle
pub mod Closing
mod Tests
use libutp.Base.{
  ℕ, ◌+◌, ◌≡◌, ◌≢◌, Bool, true, false, not, ◌&&◌, ◌||◌, List, [], ◌∷◌, ◌++◌, leb, ◌==◌,
  if◌then◌else◌,
}
use libutp.Wire.{st_data, st_state}

-- `enum CONN_STATE`
pub data ConnState : Type 0 where
  uninitialized idle syn_sent syn_recv connected connected_full reset destroy : ConnState

pub data Error : Type 0 where
  refused was_reset timed_out : Error

pub data Event : Type 0 where
  send_fin backoff_rto on_connect on_writable : Event
  on_error : Error → Event

-- `SHUT_RD`, `SHUT_WR`, `SHUT_RDWR`
pub data How : Type 0 where
  shut_rd shut_wr shut_rdwr : How

pub record Connection : Type 0 where
  pub state : ConnState
  pub read_shutdown : Bool
  pub close_requested : Bool
  pub fin_sent : Bool
  pub fin_acked : Bool

abbrev pub fresh : Connection
fresh = record {
  state = uninitialized;
  read_shutdown = false;
  close_requested = false;
  fin_sent = false;
  fin_acked = false;
}

-- The two policy bits of a state.
unfoldable pub writable : ConnState → Bool
writable connected = true
writable _ = false

unfoldable pub timeout_active : ConnState → Bool
timeout_active syn_sent = true
timeout_active syn_recv = true
timeout_active connected = true
timeout_active connected_full = true
timeout_active _ = false

unfoldable pub is_state : ConnState → ConnState → Bool
is_state uninitialized uninitialized = true
is_state idle idle = true
is_state syn_sent syn_sent = true
is_state syn_recv syn_recv = true
is_state connected connected = true
is_state connected_full connected_full = true
is_state reset reset = true
is_state destroy destroy = true
is_state _ _ = false

-- `send_fin` of the socket: the flag, and the packet.
abbrev pub finish : Connection → Connection × List Event
finish c = (record c { fin_sent = true }, send_fin ∷ [])

-- `StateConnected::close`
unfoldable pub close_connected : Connection → Connection × List Event
close_connected c =
    let asked = record c { read_shutdown = true; close_requested = true } in
    if not c.fin_sent
    then finish asked
    else if c.fin_acked
    then (record asked { state = destroy }, [])
    else (asked, [])

-- `close`, dispatched by the state.
unfoldable pub close : Connection → Connection × List Event
unfolding close_connected
close c = elim c.state [
  | connected ↦ close_connected c
  | connected_full ↦ close_connected c
  | syn_sent ↦ (record c { state = destroy }, backoff_rto ∷ [])
  | _ ↦ (record c { state = destroy }, [])
]

unfoldable pub stops_reading : How → Bool
stops_reading shut_wr = false
stops_reading _ = true

unfoldable pub stops_writing : How → Bool
stops_writing shut_rd = false
stops_writing _ = true

-- `shutdown`, dispatched by the state.
unfoldable pub shutdown : Connection → How → Connection × List Event
unfolding stops_reading stops_writing
shutdown c how =
    let c1 = if stops_reading how then record c { read_shutdown = true } else c in
    let connected_shutdown = if stops_writing how && not c1.fin_sent then finish c1 else (c1, []) in
    elim c.state [
      | connected ↦ connected_shutdown
      | connected_full ↦ connected_shutdown
      | syn_sent ↦ (c1, if stops_writing how then backoff_rto ∷ [] else [])
      | _ ↦ (c1, [])
    ]

-- `initialize` and `connect` of a socket that is not initialized.
unfoldable pub initialize : Connection → Connection
initialize c = record c { state = idle }

unfoldable pub connect : Connection → Connection
unfolding initialize
connect c = record (initialize c) { state = syn_sent }

unfoldable pub accept_syn : Connection → Connection
accept_syn c = record c { state = syn_recv }

-- Where a failure leaves the socket.
abbrev pub failed : Connection → Connection
failed c = record c { state = if c.close_requested then destroy else reset }

-- The error is chosen by the state that has been overwritten.
unfoldable pub on_reset : Connection → Connection × List Event
unfolding is_state
on_reset c =
    let c' = failed c in
    (c', on_error (if is_state c'.state syn_sent then refused else was_reset) ∷ [])

unfoldable pub on_icmp_error : Connection → Connection × List Event
unfolding is_state
on_icmp_error c =
    if is_state c.state idle
    then (c, [])
    else (failed c, on_error (if is_state c.state syn_sent then refused else was_reset) ∷ [])

-- `advance_send_window`: a packet of some type, which acknowledges everything that is out or not.
unfoldable pub acked : Connection → ℕ → Bool → Connection × List Event
unfolding is_state
acked c type all_acked =
    let c1 =
      if type == st_data && is_state c.state syn_recv then record c { state = connected } else c in
    if type == st_state && is_state c1.state syn_sent
    then (record c1 { state = connected }, on_connect ∷ [])
    else if c1.fin_sent && all_acked
    then (
      record c1 { fin_acked = true; state = if c1.close_requested then destroy else c1.state },
      [],
    )
    else (c1, [])

-- A window that is no longer full.
unfoldable pub unblock : Connection → Bool → Connection × List Event
unfolding is_state
unblock c full =
    if is_state c.state connected_full && not full
    then (record c { state = connected }, on_writable ∷ [])
    else (c, [])

-- What `writev` does to the state: it ends with a window that is full or not.
unfoldable pub writev_state : Connection → Bool → Connection
unfolding writable
writev_state c full =
    if not (writable c.state)
    then c
    else if c.fin_sent
    then c
    else if full
    then record c { state = connected_full }
    else c

-- What `check_timeouts` does to the state, with the test of the retransmission timer and the count
-- of retransmissions.
unfoldable pub check_timeouts_state : Connection → Bool → ℕ → Bool → Connection × List Event
unfolding timeout_active is_state unblock
check_timeouts_state c expired retransmit_count full =
    if not (timeout_active c.state)
    then (c, [])
    else if expired && is_state c.state syn_recv
    then (record c { state = destroy }, on_error timed_out ∷ [])
    else if expired
        && (leb 4 retransmit_count || (is_state c.state syn_sent && leb 2 retransmit_count))
    then (failed c, on_error timed_out ∷ [])
    else unblock c full
