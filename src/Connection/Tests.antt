-- ===== src/Connection/Tests.antt =====
-- Runs of a connection's life, and the theorems at concrete connections.
use libutp.Base.{◌≡◌, ◌≢◌, refl, arith, true, [], ◌∷◌}
use libutp.Wire.{st_state}
use libutp.Connection.{
  Connection, fresh, close, on_reset, on_icmp_error, acked, is_state, on_error, refused, was_reset,
  idle, syn_sent, connected, reset, destroy, on_connect,
}
use libutp.Connection.Lifecycle.{IsConsistent}
use libutp.Connection.Closing.{reset_after_close, failure_reports}

abbrev dialling : Connection
dialling = record fresh { state = syn_sent }

abbrev open_connection : Connection
open_connection = record fresh { state = connected }

dial_run : acked dialling st_state true ≡ (open_connection, on_connect ∷ [])
unfolding acked is_state
dial_run = refl

dialling-IsConsistent : IsConsistent dialling
dialling-IsConsistent = ground arith

reset_after_close_example :
    let closed = (close dialling).0 in
    (closed.state ≡ destroy)
    × ((on_reset closed).0.state ≡ reset)
    × ((on_reset closed).1 ≡ on_error was_reset ∷ [])
    × ((on_icmp_error closed).0.state ≡ reset)
    × ((on_icmp_error closed).1 ≡ on_error was_reset ∷ [])
reset_after_close_example = reset_after_close dialling refl dialling-IsConsistent

failure_reports_example :
    ((on_reset dialling).1 ≡ on_error was_reset ∷ [])
    × (dialling.state ≡ syn_sent → (on_icmp_error dialling).1 ≡ on_error refused ∷ [])
    × (dialling.state ≡ idle → on_icmp_error dialling ≡ (dialling, []))
    × (dialling.state ≢ idle → (on_icmp_error dialling).0 ≡ (on_reset dialling).0)
failure_reports_example = failure_reports dialling
