-- ===== src/Context/Accepted.antt =====
-- The first packets of a connection that was accepted, with the numbers that `answer_syn` gives it.
use libutp.Base.{ℕ, ◌+◌, ◌^◌, ◌≤◌, ◌<◌, ◌≡◌, none, false}
use libutp.Base.{length, u32}
use libutp.Address.{Address}
use libutp.Context.{Context, Peer, Calls, find, answer_syn, max_sockets}
use libutp.Context.Lookup.{IsContext}

-- The socket of an accepted SYN.
abbrev pub accepted : Address → ℕ → Peer
accepted addr id = record { addr = addr; recv_id = u32 (id + 1); send_id = id }

module _ (c : Context) (calls calls' : Calls) (addr : Address) (id seq_nr : ℕ) (v : IsContext c)
    (small : id < 2 ^ 16) (free : find c.sockets addr (id + 1) ≡ none)
    (room : length c.sockets ≤ max_sockets) (welcome : calls.firewall ≡ false) where
  after : Context
  after = (answer_syn c calls addr id seq_nr).0
