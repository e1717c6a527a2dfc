-- ===== src/Mtu/Icmp.antt =====
-- Answers that name no probe: a timeout, and the two kinds of ICMP message.
use libutp.Base.{ℕ, ◌≤◌, ◌<◌, ◌≡◌, ◌⊎◌, true, false, not, ◌&&◌, arith, ◌==◌}
use libutp.Mtu.{MtuDiscovery, search_update, handle_probe_timeout, handle_icmp_fragmentation}
use libutp.Mtu.{handle_icmp_unknown, on_icmp_fragmentation, is_probe, clear_probe}
use libutp.Mtu.Search.{IsRange}

-- A retransmission timeout reports a loss to be ignored exactly if the one packet in flight is the
-- probe. Then the ceiling falls below the probe's size; otherwise the range stays. Either way no
-- probe is left in flight, and the range stays well-formed.
handle_probe_timeout_lem :
    (m : MtuDiscovery) (seq packets t : ℕ)
    → IsRange m
    → let (m', ignore_loss) = handle_probe_timeout m seq packets t in
      (ignore_loss ≡ ((packets == 1) && not (m.probe_seq == 0) && seq == m.probe_seq))
      × (m'.probe_seq ≡ 0)
      × (m'.floor ≡ m.floor)
      × (ignore_loss ≡ true → m'.ceiling < m.probe_size)
      × (ignore_loss ≡ false → m'.ceiling ≡ m.ceiling)
      × IsRange m'
unfolding handle_probe_timeout is_probe clear_probe search_update
handle_probe_timeout_lem m seq packets t v = ground (arith, v.probe_above, v.probe_within)

-- An ICMP message with a next hop no smaller than the floor, or with none that is usable, keeps
-- the range well-formed; after the first kind the MTU in use is the new ceiling, and it is at most
-- the next hop's MTU.
pub on_icmp_fragmentation-IsRange :
    (m : MtuDiscovery) (next_hop_mtu t : ℕ)
    → IsRange m
    → (m.floor ≤ next_hop_mtu) ⊎ (next_hop_mtu < 576) ⊎ (0x2000 ≤ next_hop_mtu)
    → let m' = on_icmp_fragmentation m next_hop_mtu t in
      IsRange m'
      × (m'.ceiling ≤ m.ceiling)
      × (576 ≤ next_hop_mtu
          → next_hop_mtu < 0x2000
          → (m'.last ≡ m'.ceiling) × (m'.last ≤ next_hop_mtu))
unfolding on_icmp_fragmentation handle_icmp_fragmentation handle_icmp_unknown search_update
on_icmp_fragmentation-IsRange m next_hop_mtu t v h = ground arith

-- An ICMP message that names a usable next hop below the floor breaks the assertion
-- `floor <= ceiling` of `search_update`: the range is left with its ceiling below its floor, and
-- the search does not count as ended.
pub icmp_below_floor :
    (m : MtuDiscovery) (next_hop_mtu t : ℕ)
    → IsRange m
    → 576 ≤ next_hop_mtu
    → next_hop_mtu < 0x2000
    → next_hop_mtu < m.floor
    → let m' = on_icmp_fragmentation m next_hop_mtu t in
      (m'.ceiling ≡ next_hop_mtu)
      × (m'.floor ≡ m.floor)
      × (m'.ceiling < m'.floor)
      × (m'.discover_time ≡ m.discover_time)
unfolding on_icmp_fragmentation handle_icmp_fragmentation search_update
icmp_below_floor m next_hop_mtu t v lo hi below = ground arith
