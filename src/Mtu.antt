-- ===== src/Mtu.antt =====
-- src/utp/mtu_discovery.hpp: the binary search for the path's MTU. Sizes and sequence numbers are
-- `uint32`, times `uint64` milliseconds. The logger is not modelled: it takes no part in the state.
pub mod Search
pub mod Converge
pub mod Icmp
mod Tests
use libutp.Base.{ℕ, ◌+◌, ◌/◌, ◌*◌, Bool, true, false, not, ◌&&◌, min}
use libutp.Base.{u32, u64, sub32, sub64, ltb, leb, ◌==◌, if◌then◌else◌}

pub record MtuDiscovery : Type 0 where
  pub discover_time : ℕ
  pub ceiling : ℕ
  pub floor : ℕ
  pub last : ℕ
  pub probe_seq : ℕ
  pub probe_size : ℕ

-- The constructor's state.
abbrev pub unset : MtuDiscovery
unset = record {
  discover_time = 0;
  ceiling = 0;
  floor = 0;
  last = 0;
  probe_seq = 0;
  probe_size = 0;
}

abbrev pub half_hour : ℕ
half_hour = 30 * 60 * 1000

abbrev pub smallest_mtu : ℕ
smallest_mtu = 576

unfoldable pub reset : MtuDiscovery → ℕ → ℕ → MtuDiscovery
reset m udp_mtu current_ms = record m {
  ceiling = udp_mtu;
  floor = smallest_mtu;
  discover_time = u64 (current_ms + half_hour);
}

pub search_update : MtuDiscovery → ℕ → MtuDiscovery
search_update m current_ms =
    let halved = record m { last = u32 (m.floor + m.ceiling) / 2; probe_seq = 0; probe_size = 0 } in
    if leb (sub32 m.ceiling m.floor) 16
    then record halved {
      last = m.floor;
      ceiling = m.floor;
      discover_time = u64 (current_ms + half_hour);
    }
    else halved

pub raw_mtu : MtuDiscovery → ℕ
raw_mtu m = if m.last == 0 then m.ceiling else m.last

unfoldable pub effective_mtu : MtuDiscovery → ℕ → ℕ
effective_mtu m header_size = sub64 (if m.last == 0 then m.ceiling else m.last) header_size

unfoldable pub set_probe : MtuDiscovery → ℕ → ℕ → MtuDiscovery
set_probe m seq size = record m { probe_seq = seq; probe_size = size }

pub is_probe : MtuDiscovery → ℕ → Bool
is_probe m seq = not (m.probe_seq == 0) && seq == m.probe_seq

pub clear_probe : MtuDiscovery → MtuDiscovery
clear_probe m = record m { probe_seq = 0; probe_size = 0 }

pub handle_probe_ack : MtuDiscovery → ℕ → ℕ → MtuDiscovery × Bool
handle_probe_ack m seq current_ms =
    if is_probe m seq
    then (search_update (record m { floor = m.probe_size }) current_ms, true)
    else (m, false)

pub handle_probe_timeout : MtuDiscovery → ℕ → ℕ → ℕ → MtuDiscovery × Bool
handle_probe_timeout m outstanding_seq cur_window_packets current_ms =
    if cur_window_packets == 1 && is_probe m outstanding_seq
    then (
      clear_probe (search_update (record m { ceiling = sub32 m.probe_size 1 }) current_ms),
      true,
    )
    else (clear_probe m, false)

pub handle_probe_loss : MtuDiscovery → ℕ → MtuDiscovery
handle_probe_loss m current_ms =
    clear_probe (search_update (record m { ceiling = sub32 m.probe_size 1 }) current_ms)

pub handle_icmp_fragmentation : MtuDiscovery → ℕ → ℕ → MtuDiscovery
handle_icmp_fragmentation m next_hop_mtu current_ms =
    let searched = search_update (record m { ceiling = min next_hop_mtu m.ceiling }) current_ms in
    record searched { last = searched.ceiling }

pub handle_icmp_unknown : MtuDiscovery → ℕ → MtuDiscovery
handle_icmp_unknown m current_ms =
    search_update (record m { ceiling = u32 (m.floor + m.ceiling) / 2 }) current_ms

unfoldable pub should_rediscover : MtuDiscovery → ℕ → Bool
should_rediscover m current_ms = ltb m.discover_time current_ms

pub set_last_to_ceiling : MtuDiscovery → MtuDiscovery
set_last_to_ceiling m = record m { last = m.ceiling }

-- utp_socket.cpp, `send_packet`: whether a packet of `length` bytes that has not been sent before
-- carries a probe, and the state after it.
unfoldable pub wants_probe : MtuDiscovery → ℕ → ℕ → ℕ → Bool
wants_probe m seq_nr length transmissions =
    ltb m.floor m.ceiling
    && ltb m.floor length
    && leb length m.ceiling
    && m.probe_seq == 0
    && not (seq_nr == 1)
    && transmissions == 0

-- utp_socket.hpp, `on_icmp_fragmentation`.
pub on_icmp_fragmentation : MtuDiscovery → ℕ → ℕ → MtuDiscovery
on_icmp_fragmentation m next_hop_mtu current_ms =
    if leb 576 next_hop_mtu && ltb next_hop_mtu 0x2000
    then handle_icmp_fragmentation m next_hop_mtu current_ms
    else handle_icmp_unknown m current_ms
