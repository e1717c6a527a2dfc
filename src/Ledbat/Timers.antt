-- ===== src/Ledbat/Timers.antt =====
-- src/utp/ledbat.hpp: the setters by which a socket drives the window and the timers.
use libutp.Base.{ℕ, ◌+◌, u16}
use libutp.Ledbat.{Ledbat}

unfoldable pub set_max_window : Ledbat → ℕ → Ledbat
set_max_window c bytes = record c { max_window = bytes }

unfoldable pub set_ssthresh : Ledbat → ℕ → Ledbat
set_ssthresh c bytes = record c { ssthresh = bytes }

unfoldable pub set_zerowindow_time : Ledbat → ℕ → Ledbat
set_zerowindow_time c ms = record c { zerowindow_time = ms }

unfoldable pub set_retransmit_timeout : Ledbat → ℕ → Ledbat
set_retransmit_timeout c ms = record c { retransmit_timeout = ms }

unfoldable pub set_rto_timeout : Ledbat → ℕ → Ledbat
set_rto_timeout c ms = record c { rto_timeout = ms }

unfoldable pub set_retransmit_count : Ledbat → ℕ → Ledbat
set_retransmit_count c count = record c { retransmit_count = count }

unfoldable pub increment_retransmit_count : Ledbat → Ledbat
increment_retransmit_count c = record c { retransmit_count = u16 (c.retransmit_count + 1) }
