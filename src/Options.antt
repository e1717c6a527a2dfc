-- ===== src/Options.antt =====
-- src/utp_context.cpp, `set_option` and `get_option`, and src/utp_internal.h, `would_log`. A value is
-- an `int` that is not negative, and `none` is the result -1.
pub mod Values
mod Tests
use libutp.Base.{ℕ, Bool, true, false, not, ◌==◌, if◌then◌else◌, Option, none, some}

-- Of the constants in `utp.h`.
abbrev pub utp_log_normal : ℕ
utp_log_normal = 16

abbrev pub utp_log_mtu : ℕ
utp_log_mtu = 17

abbrev pub utp_log_debug : ℕ
utp_log_debug = 18

abbrev pub utp_sndbuf : ℕ
utp_sndbuf = 19

abbrev pub utp_rcvbuf : ℕ
utp_rcvbuf = 20

abbrev pub utp_target_delay : ℕ
utp_target_delay = 21

pub record ContextOptions : Type 0 where
  pub log_normal : Bool
  pub log_mtu : Bool
  pub log_debug : Bool
  pub target_delay : ℕ
  pub opt_sndbuf : ℕ
  pub opt_rcvbuf : ℕ

-- The constructor's values.
abbrev pub default_options : ContextOptions
default_options = record {
  log_normal = false;
  log_mtu = false;
  log_debug = false;
  target_delay = 100000;
  opt_sndbuf = 1048576;
  opt_rcvbuf = 1048576;
}

unfoldable pub set_option : ContextOptions → ℕ → ℕ → ContextOptions × Option ℕ
set_option o opt val =
    if opt == utp_log_normal
    then (record o { log_normal = not (val == 0) }, some 0)
    else if opt == utp_log_mtu
    then (record o { log_mtu = not (val == 0) }, some 0)
    else if opt == utp_log_debug
    then (record o { log_debug = not (val == 0) }, some 0)
    else if opt == utp_target_delay
    then (record o { target_delay = val }, some 0)
    else if opt == utp_sndbuf
    then (record o { opt_sndbuf = val }, some 0)
    else if opt == utp_rcvbuf
    then (record o { opt_rcvbuf = val }, some 0)
    else (o, none)

unfoldable pub get_option : ContextOptions → ℕ → Option ℕ
get_option o opt =
    if opt == utp_log_normal
    then some (if o.log_normal then 1 else 0)
    else if opt == utp_log_mtu
    then some (if o.log_mtu then 1 else 0)
    else if opt == utp_log_debug
    then some (if o.log_debug then 1 else 0)
    else if opt == utp_target_delay
    then some o.target_delay
    else if opt == utp_sndbuf
    then some o.opt_sndbuf
    else if opt == utp_rcvbuf
    then some o.opt_rcvbuf
    else none

unfoldable pub would_log : ContextOptions → ℕ → Bool
would_log o level =
    if level == utp_log_normal
    then o.log_normal
    else if level == utp_log_mtu
    then o.log_mtu
    else if level == utp_log_debug
    then o.log_debug
    else true
