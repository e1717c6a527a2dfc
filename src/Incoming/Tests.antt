-- ===== src/Incoming/Tests.antt =====
-- A datagram that an open connection takes in, and the theorem on it.
use libutp.Base.{ℕ, ◌≡◌, ◌+◌, ◌*◌, ◌/◌, refl, arith, false, ltb, List, [], ◌∷◌, some, replicate}
use libutp.Base.Int.{pos, pos_part}
use libutp.SequenceBuffer.{initialize, put}
use libutp.Ledbat.{initial}
use libutp.Ledbat.Ccontrol.{Double}
use libutp.Mtu.{unset}
use libutp.Connection.{fresh, connected}
use libutp.Receive.{ReceiveState}
use libutp.Send.{Socket, Host, Output}
use libutp.Send.Trace.{start-Young}
use libutp.Incoming.{process_incoming}
use libutp.Incoming.Life.{Life, born, Life-IsEndpoint}
use libutp.Incoming.Totality.{IsEndpoint, process_incoming-IsEndpoint}

abbrev host : Host
host = record {
  current_ms = 5000;
  milliseconds = 5000;
  microseconds = 70000;
  udp_mtu = 1400;
  udp_overhead = 28;
  read_buffer_size = 0;
  conn_id_send = 258;
}

abbrev receiving : ReceiveState
receiving = record {
  ack_nr = 9;
  reorder_count = 1;
  eof_pkt = 0;
  got_fin = false;
  got_fin_reached = false;
  read_shutdown = false;
  inbuf = put (initialize 16) 11 (some (7 ∷ []));
}

abbrev endpoint : Socket
endpoint = record {
  conn = record fresh { state = connected };
  seq_nr = 65535;
  cur_window_packets = 0;
  opt_sndbuf = 100000;
  opt_rcvbuf = 100000;
  max_window_user = 100000;
  flush_scan_start = 65535;
  outbuf = initialize 16;
  recv = receiving;
  last_rcv_win = 0;
  reply_micro = 3;
  last_sent_packet = 0;
  fast_timeout = false;
  timeout_seq_nr = 0;
  fast_resend_seq_nr = 65535;
  duplicate_ack = 0;
  cc = record initial { max_window = 5000 };
  mtu = record unset { ceiling = 1400; floor = 576; discover_time = 1000000 };
  extensions = replicate 8 0;
  target_delay = 100000;
  last_got_packet = 0;
  last_measured_delay = 0;
}

-- Whole numbers in place of `double`.
abbrev whole_numbers : Double
whole_numbers = record {
  W = ℕ;
  of_int = pos_part;
  mul = λ a b. a * b;
  div = λ a b. a / b;
  add = λ a b. a + b;
  above_zero = λ a. ltb 0 a;
  to_size = λ a. a;
  to_int = λ a. pos a;
  tenths = λ a. 9 * a / 10;
}

-- The packet 10, which is awaited, with two bytes.
abbrev datagram : List ℕ
datagram =
    1
    ∷ 0
    ∷ 1
    ∷ 2
    ∷ 0
    ∷ 0
    ∷ 0
    ∷ 9
    ∷ 0
    ∷ 0
    ∷ 0
    ∷ 0
    ∷ 0
    ∷ 0
    ∷ 16
    ∷ 0
    ∷ 0
    ∷ 10
    ∷ 255
    ∷ 254
    ∷ (5 ∷ 6 ∷ [])

abbrev new_endpoint : Socket
new_endpoint = record endpoint {
  recv = record receiving { reorder_count = 0; inbuf = initialize 16 };
}

new_endpoint-Life : Life whole_numbers new_endpoint
new_endpoint-Life = born new_endpoint refl (omega arith) refl refl refl refl refl

-- The socket after its first datagram.
abbrev later :
    (s' : Socket) × (outputs : List Output) × (process_incoming whole_numbers host new_endpoint
        datagram false
      ≡ some (s', outputs))
    × IsEndpoint s'
later =
    process_incoming-IsEndpoint whole_numbers host new_endpoint datagram false
      (Life-IsEndpoint whole_numbers new_endpoint new_endpoint-Life).0
      (start-Young new_endpoint refl) (omega arith) (omega arith)
