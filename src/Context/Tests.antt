-- ===== src/Context/Tests.antt =====
-- Runs of the routing, and its theorems at a context with a connection.
use libutp.Base.{ℕ, ◌≡◌, refl, arith, false, [], ◌∷◌, none, some, if◌then◌else◌, replicate}
use mathlib.Core.Option.{some-injective}
use mathlib.Core.Path.{subst}
use libutp.Wire.{
  PacketFormatV1, utp_version, type, version, header_at, read16, read32, bytes_of, big16, big32,
}
use libutp.Address.{Address, same_address, bytes_eq}
use libutp.Context.{
  Context, Peer, RstInfo, Calls, send_rst, has_key, find, cached, process_udp, route, utp_header,
  answer_stray, touch, is_answered,
}
use libutp.Context.Expire.{destroy_socket}
use libutp.Context.Lookup.{IsContext, cached-find}
use libutp.Context.Routing.{process_udp-IsContext, destroy_socket-IsContext}

abbrev home : Address
home = record { in6 = replicate 16 1; port = 8080 }

abbrev calls : Calls
calls = record { milliseconds = 20000; random = 77; firewall = false }

abbrev peer : Peer
peer = record { addr = home; recv_id = 5; send_id = 4 }

abbrev stale : RstInfo
stale = record { addr = home; connid = 9; ack_nr = 1; timestamp = 1000 }

abbrev context : Context
context = record {
  sockets = peer ∷ [];
  last_socket = some peer;
  rst_info = stale ∷ [];
  current_ms = 1000;
  last_check = 1000;
}

sane : IsContext context
unfolding find has_key same_address bytes_eq
sane = record {
  distinct = (refl, omega arith);
  last = λ p e. same p (some-injective peer p e);
  bounded = omega arith;
}
  where
    same : (p : Peer) → peer ≡ p → find (peer ∷ []) p.addr p.recv_id ≡ some p
    same p e = subst (λ (x : Peer). find (peer ∷ []) x.addr x.recv_id ≡ some x) e refl

-- A data packet with the number 6 and sequence number 2.
abbrev stray : PacketFormatV1
stray = record {
  ver_type = 1;
  ext = 0;
  connid = 6;
  tv_usec = 0;
  reply_micro = 0;
  windowsize = 0;
  seq_nr = 2;
  ack_nr = 0;
}

-- It is answered with a reset.
stray_run :
    let r = process_udp context calls (bytes_of stray) home in
    (r.1 ≡ 1) × (r.2 ≡ send_rst home 6 2 77 ∷ [])
unfolding process_udp utp_header utp_version header_at read16 read32 bytes_of big16 big32 type
    version route cached find has_key same_address bytes_eq answer_stray touch is_answered
stray_run = (refl, refl)

cached-find_example : cached context home 5 ≡ find context.sockets home 5
cached-find_example = cached-find context home 5 sane

process_udp-IsContext_example : IsContext (process_udp context calls (bytes_of stray) home).0
process_udp-IsContext_example = process_udp-IsContext context calls home sane (bytes_of stray)

destroy_socket-IsContext_example :
    IsContext (destroy_socket context peer)
    × ((addr : Address) (id : ℕ)
        → find (destroy_socket context peer).sockets addr id
          ≡ (if has_key addr id peer then none else find context.sockets addr id))
destroy_socket-IsContext_example = destroy_socket-IsContext context peer sane
