-- ===== src/Options/Tests.antt =====
-- Runs of the options, and the theorem at a set of options.
use libutp.Base.{◌≡◌, refl, some}
use libutp.Options.{default_options, set_option, get_option, utp_sndbuf}

sndbuf_run : get_option (set_option default_options utp_sndbuf 4096).0 utp_sndbuf ≡ some 4096
unfolding get_option set_option
sndbuf_run = refl
