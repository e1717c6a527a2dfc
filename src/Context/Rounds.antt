-- ===== src/Context/Rounds.antt =====
-- A round of the context's timer: which sockets and which records of resets it leaves.
use libutp.Base.{Option, none, some, false, Bool}
use libutp.Address.{Address}
use libutp.Context.{Context, Peer}

-- Whether a look-up finds a socket that dies.
unfoldable pub dead : (Peer → Bool) → Option Peer → Bool
dead dies none = false
dead dies (some p) = dies p
