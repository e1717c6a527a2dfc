-- ===== src/Connection/Lifecycle.antt =====
-- The handlers as a step relation, and what holds of every connection that can be reached.
use libutp.Base.{ℕ, ◌≡◌, ◌≢◌, Bool, true, false, not, ◌&&◌}
use libutp.Connection.{
  Connection, ConnState, How, fresh, close, shutdown, initialize, connect, accept_syn, on_reset,
  on_icmp_error, acked, unblock, writev_state, check_timeouts_state, uninitialized, connected,
  connected_full, reset, destroy,
}

-- One call of a handler. `connect` and the acceptance of a SYN are for sockets just created, and
-- `close` and `shutdown` assert that the socket is in use.
pub data Step : Connection → Connection → Type 0 where
  connects : {c : Connection} → c.state ≡ uninitialized → Step c (connect c)
  accepts : {c : Connection} → c.state ≡ uninitialized → Step c (accept_syn (initialize c))
  closes : {c : Connection} → c.state ≢ uninitialized → c.state ≢ destroy → Step c (close c).0
  shuts :
      {c : Connection} (how : How)
      → c.state ≢ uninitialized
      → c.state ≢ destroy
      → Step c (shutdown c how).0
  resets : {c : Connection} → Step c (on_reset c).0
  fails : {c : Connection} → Step c (on_icmp_error c).0
  acks : {c : Connection} (type : ℕ) (all_acked : Bool) → Step c (acked c type all_acked).0
  unblocks : {c : Connection} (full : Bool) → Step c (unblock c full).0
  writes : {c : Connection} (full : Bool) → Step c (writev_state c full)
  ticks :
      {c : Connection} (expired : Bool) (retransmit_count : ℕ) (full : Bool)
      → Step c (check_timeouts_state c expired retransmit_count full).0

pub data Reachable : Connection → Type 0 where
  created : Reachable fresh
  step : {c c' : Connection} → Reachable c → Step c c' → Reachable c'

-- Of a state in which a FIN may have been sent.
unfoldable pub was_connected : ConnState → Bool
was_connected connected = true
was_connected connected_full = true
was_connected reset = true
was_connected destroy = true
was_connected _ = false

-- Of a state in which a close may be under way or done.
unfoldable pub may_be_closing : ConnState → Bool
may_be_closing connected = true
may_be_closing connected_full = true
may_be_closing destroy = true
may_be_closing _ = false

pub record IsConsistent (c : Connection) : Type 0 where
  pub acked_is_sent : (c.fin_acked && not c.fin_sent) ≡ false
  pub closing_is_sent : (c.close_requested && not c.fin_sent) ≡ false
  pub closing_stops_reading : (c.close_requested && not c.read_shutdown) ≡ false
  pub sent_was_connected : (c.fin_sent && not (was_connected c.state)) ≡ false
  pub closing_not_reset : (c.close_requested && not (may_be_closing c.state)) ≡ false
