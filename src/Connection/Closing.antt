-- ===== src/Connection/Closing.antt =====
-- How a close ends, and what a failure reports.
use libutp.Base.{◌≡◌, ◌≢◌, arith, Bool, true, false, [], ◌∷◌}
use libutp.Connection.{
  Connection, ConnState, close, close_connected, on_reset, on_icmp_error, is_state, on_error,
  refused, was_reset, idle, syn_sent, connected, connected_full, reset, destroy,
}
use libutp.Connection.Lifecycle.{IsConsistent, was_connected, may_be_closing}

-- Of a connected socket.
pub is_connected : ConnState → Bool
is_connected connected = true
is_connected connected_full = true
is_connected _ = false

-- Of a connection whose flags are consistent: a socket that is closed while its SYN is out is to be destroyed, but nothing records the close: a
-- reset or an ICMP error that comes before it is destroyed takes it to the state of a connection
-- that waits for a close, and reports an error.
pub reset_after_close :
    (c : Connection)
    → c.state ≡ syn_sent
    → IsConsistent c
    → let closed = (close c).0 in
      (closed.state ≡ destroy)
      × ((on_reset closed).0.state ≡ reset)
      × ((on_reset closed).1 ≡ on_error was_reset ∷ [])
      × ((on_icmp_error closed).0.state ≡ reset)
      × ((on_icmp_error closed).1 ≡ on_error was_reset ∷ [])
unfolding close close_connected on_reset on_icmp_error is_state was_connected may_be_closing
reset_after_close c e v = ground arith

-- A reset is reported as a reset in every state, also while the SYN is out, when an ICMP error is
-- reported as a refusal. Both leave the same state, but that an ICMP error is ignored when idle.
pub failure_reports :
    (c : Connection)
    → ((on_reset c).1 ≡ on_error was_reset ∷ [])
      × (c.state ≡ syn_sent → (on_icmp_error c).1 ≡ on_error refused ∷ [])
      × (c.state ≡ idle → on_icmp_error c ≡ (c, []))
      × (c.state ≢ idle → (on_icmp_error c).0 ≡ (on_reset c).0)
unfolding on_reset on_icmp_error is_state
failure_reports c = ground arith
