-- ===== src/Mtu/Converge.antt =====
-- The whole search: full packets as probes, answered by a path that carries `p` bytes.
use libutp.Base.{ℕ, ◌+◌, ◌*◌, ◌/◌, ◌^◌, ◌≤◌, ◌<◌, ◌≡◌, ◌≢◌}
use libutp.Base.{u16, leb, if◌then◌else◌, List, [], ◌∷◌, All}
use libutp.Mtu.{MtuDiscovery, handle_probe_ack, reset}
use libutp.Mtu.{handle_probe_loss, set_probe, reset, wants_probe, raw_mtu}

module _ (p : ℕ) where
  -- A full packet goes out for the first time with the sequence number before `seq_nr`. If it
  -- carries a probe, the path answers by its size.
  unfoldable pub round : ℕ → ℕ → MtuDiscovery → MtuDiscovery
  round seq_nr t m =
      let size = raw_mtu m in
      let sent = set_probe m (u16 (seq_nr + 0xffff)) size in
      if wants_probe m seq_nr size 0
      then if leb size p
        then (handle_probe_ack sent sent.probe_seq t).0
        else handle_probe_loss sent t
      else m

  unfoldable pub rounds : List (ℕ × ℕ) → MtuDiscovery → MtuDiscovery
  rounds [] m = m
  rounds ((seq_nr, t) ∷ rest) m = rounds rest (round seq_nr t m)

  -- Between two answers: the next full packet halves the range, which `n` halvings close.
  record IsSearching (n : ℕ) (m : MtuDiscovery) : Type 0 where
    from : m.floor ≤ p
    to : p ≤ m.ceiling
    positive : 0 < m.floor
    fits : m.ceiling < 2 ^ 31
    midpoint : m.last ≡ (m.floor + m.ceiling) / 2
    free : m.probe_seq ≡ 0
    wide : m.floor + 16 < m.ceiling
    gap : m.ceiling ≤ m.floor + 15 * 2 ^ n + 1

  -- Sequence numbers that can carry a probe.
  abbrev pub CanProbe : List (ℕ × ℕ) → Type 0
  CanProbe = All (λ r. (r.0 < 2 ^ 16) × (r.0 ≢ 1))
