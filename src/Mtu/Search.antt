-- ===== src/Mtu/Search.antt =====
-- One answer to a probe: the search range keeps the path's MTU and shrinks.
use libutp.Base.{ℕ, ◌+◌, ◌-◌, ◌^◌, ◌≤◌, ◌<◌, ◌≡◌, ◌≢◌, ◌⊎◌, true, arith}
use libutp.Mtu.{MtuDiscovery, search_update, handle_probe_ack}
use libutp.Mtu.{handle_probe_loss, is_probe, clear_probe}

-- Sizes are far below the width of the words, and a probe in flight lies in the search range.
pub record IsRange (m : MtuDiscovery) : Type 0 where
  pub ordered : m.floor ≤ m.ceiling
  pub fits : m.ceiling < 2 ^ 31
  pub probe_above : m.probe_seq ≢ 0 → m.floor < m.probe_size
  pub probe_within : m.probe_seq ≢ 0 → m.probe_size ≤ m.ceiling

-- The path carries `p` bytes: the search is still open around `p`, or it has ended just below.
pub record IsOpen (p : ℕ) (m : MtuDiscovery) : Type 0 where
  pub from : m.floor ≤ p
  pub to : p ≤ m.ceiling

pub record IsDone (p : ℕ) (m : MtuDiscovery) : Type 0 where
  pub closed : m.ceiling ≡ m.floor
  pub adopted : m.last ≡ m.floor
  pub carried : m.floor ≤ p
  pub near : p ≤ m.floor + 16

abbrev pub Found : ℕ → MtuDiscovery → Type 0
Found p m = IsOpen p m ⊎ IsDone p m

search_update-Found :
    (p : ℕ) (m : MtuDiscovery) (t : ℕ)
    → m.floor ≤ m.ceiling
    → m.ceiling < 2 ^ 31
    → IsOpen p m
    → Found p (search_update m t) × IsRange (search_update m t)
unfolding search_update
search_update-Found p m t le lt o = ground arith

-- While the range is open around the path's MTU and the path drops exactly the packets larger than
-- it, either answer to a probe leaves the range open around it, or ends the search at most 16
-- bytes below it; the assertions `floor <= ceiling` hold, and the range does not grow.
answer-Found :
    (p : ℕ) (m : MtuDiscovery) (t : ℕ)
    → IsRange m
    → IsOpen p m
    → m.probe_seq ≢ 0
    → let acked = handle_probe_ack m m.probe_seq t in
      let lost = handle_probe_loss m t in
      (m.probe_size ≤ p
        → (acked.1 ≡ true)
          × Found p acked.0
          × IsRange acked.0
          × (acked.0.ceiling - acked.0.floor < m.ceiling - m.floor))
      × (p < m.probe_size
          → Found p lost × IsRange lost × (lost.ceiling - lost.floor < m.ceiling - m.floor))
unfolding handle_probe_ack handle_probe_loss is_probe clear_probe search_update
answer-Found p m t v o busy = ground (arith, v.probe_above busy, v.probe_within busy)
