-- ===== src/Mtu/Tests.antt =====
-- Runs of the MTU search, and its theorems at concrete states.
use libutp.Base.{ℕ, ◌≤◌, ◌<◌, ◌≡◌, refl, arith, List, [], ◌∷◌, inl}
use libutp.Mtu.{
  MtuDiscovery, unset, reset, set_last_to_ceiling, handle_probe_ack, handle_probe_loss,
}
use libutp.Mtu.{on_icmp_fragmentation, search_update, set_probe, is_probe}
use libutp.Mtu.{clear_probe, wants_probe, raw_mtu}
use libutp.Mtu.Search.{IsRange}
use libutp.Mtu.Converge.{round, rounds}
use libutp.Mtu.Icmp.{on_icmp_fragmentation-IsRange, icmp_below_floor}

abbrev plan : List (ℕ × ℕ)
plan =
    (10, 1)
    ∷ (11, 2)
    ∷ (12, 3)
    ∷ (13, 4)
    ∷ (14, 5)
    ∷ (15, 6)
    ∷ (16, 7)
    ∷ ((17, 8) ∷ (18, 9) ∷ (19, 10) ∷ (20, 11) ∷ (21, 12) ∷ (22, 13) ∷ (23, 14) ∷ [])

-- An interface of 1500 bytes on a path that carries 1400.
search_run : (rounds 1400 plan (set_last_to_ceiling (reset unset 1500 0))).last ≡ 1396
unfolding rounds round set_last_to_ceiling reset wants_probe raw_mtu set_probe handle_probe_ack
    handle_probe_loss is_probe clear_probe search_update
search_run = refl

-- A probe of 1038 bytes in flight.
abbrev probing : MtuDiscovery
probing = record {
  discover_time = 5000;
  ceiling = 1500;
  floor = 576;
  last = 1038;
  probe_seq = 9;
  probe_size = 1038;
}

probing-IsRange : IsRange probing
probing-IsRange = omega arith

on_icmp_fragmentation-IsRange_example :
    let m = on_icmp_fragmentation probing 1280 7 in
    IsRange m
    × (m.ceiling ≤ probing.ceiling)
    × (576 ≤ 1280 → 1280 < 0x2000 → (m.last ≡ m.ceiling) × (m.last ≤ 1280))
on_icmp_fragmentation-IsRange_example =
    on_icmp_fragmentation-IsRange probing 1280 7 probing-IsRange (inl (omega arith))

-- The floor has risen to 1400; a message names a next hop of 1280.
abbrev risen : MtuDiscovery
risen = record probing { floor = 1400; probe_seq = 0; probe_size = 0 }

risen-IsRange : IsRange risen
risen-IsRange = omega arith

icmp_below_floor_example :
    let m = on_icmp_fragmentation risen 1280 7 in
    (m.ceiling ≡ 1280)
    × (m.floor ≡ risen.floor)
    × (m.ceiling < m.floor)
    × (m.discover_time ≡ risen.discover_time)
icmp_below_floor_example =
    icmp_below_floor risen 1280 7 risen-IsRange (omega arith) (omega arith) (omega arith)
