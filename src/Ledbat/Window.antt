-- ===== src/Ledbat/Window.antt =====
-- The congestion window's reductions, the bytes in flight, and the retransmission timer.
use libutp.Base.{ℕ, ◌+◌, ◌*◌, ◌/◌, ◌^◌, ◌≤◌, ◌<◌, ◌≡◌, ◌⊎◌, ◌↔◌, true, false, arith, max}
use libutp.Base.Int.{signed64, ◌-ℤ◌}
use libutp.Ledbat.{Ledbat, maybe_decay_win, can_decay_win, on_rto_timeout, add_in_flight}
use libutp.Ledbat.{remove_in_flight, can_send, set_initial_rto, is_rto_expired, min_window_size}

-- Times stay below 2 ^ 62 milliseconds. A decay halves the window, but not below the smallest one,
-- ends slow start at the new window, and is the only one for 100 milliseconds.
decay_once :
    (c : Ledbat) (t later : ℕ)
    → later < 2 ^ 62
    → t ≤ later
    → later < t + 100
    → can_decay_win c (signed64 t) ≡ true
    → let decayed = maybe_decay_win c t in
      (decayed.max_window ≡ max (c.max_window / 2) min_window_size)
      × (decayed.slow_start ≡ false)
      × (decayed.ssthresh ≡ decayed.max_window)
      × (maybe_decay_win decayed later ≡ decayed)
unfolding maybe_decay_win can_decay_win ◌-ℤ◌
decay_once c t later small le soon can = ground arith

-- A timeout with nothing in flight takes a third of the window, but not less than a packet, and
-- does not enter slow start; any other sets the window to one packet and enters slow start. The
-- window is never left below a packet, nor above both what it was and a packet.
pub on_rto_timeout_lem :
    (c : Ledbat) (packet_size packets : ℕ)
    → c.max_window < 2 ^ 62
    → packet_size < 2 ^ 62
    → let c' = on_rto_timeout c packet_size packets in
      (packet_size ≤ c'.max_window)
      × (c'.max_window ≤ max c.max_window packet_size)
      × (packets ≡ 0
          → packet_size < c.max_window
          → (c'.max_window ≡ max (c.max_window * 2 / 3) packet_size)
            × (c'.slow_start ≡ c.slow_start))
      × ((0 < packets) ⊎ (c.max_window ≤ packet_size)
          → (c'.max_window ≡ packet_size) × (c'.slow_start ≡ true))
unfolding on_rto_timeout
on_rto_timeout_lem c packet_size packets hw hp = ground arith

-- Where the bytes in flight do not wrap: what `can_send` allows leaves the bytes in flight within
-- the congestion window, the send buffer and the peer's window, what it refuses would exceed one of
-- them, and taking the bytes back restores the controller.
flight_lem :
    (c : Ledbat) (bytes max_window_user opt_sndbuf : ℕ)
    → c.cur_window + bytes < 2 ^ 64
    → let sent = add_in_flight c bytes in
      ((can_send c bytes max_window_user opt_sndbuf ≡ true) ↔ (
        (sent.cur_window ≤ c.max_window)
        × (sent.cur_window ≤ opt_sndbuf)
        × (sent.cur_window ≤ max_window_user)))
      × (remove_in_flight sent bytes ≡ c)
unfolding add_in_flight remove_in_flight can_send
flight_lem c bytes max_window_user opt_sndbuf h = ground arith

-- A timer started at `t` expires at the first time that is `rto` milliseconds later, and stays
-- expired.
set_initial_rto-is_rto_expired :
    (c : Ledbat) (t now : ℕ)
    → t ≤ now
    → now < 2 ^ 62
    → c.rto < 2 ^ 32
    → 0 < t + c.rto
    → (is_rto_expired (set_initial_rto c t) now ≡ true) ↔ (t + c.rto ≤ now)
unfolding set_initial_rto is_rto_expired
set_initial_rto-is_rto_expired c t now le small hr some_time = ground arith
