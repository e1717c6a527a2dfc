-- ===== src/Send/Tests.antt =====
-- Runs of the sending half, and its theorems at a socket that writes.
use libutp.Base.{replicate}
use libutp.Base.{ℕ, ◌≡◌, ◌&&◌, refl, arith, false, List, [], ◌∷◌, some, min, ltb}
use mathlib.Core.Option
use libutp.Wire.{st_data, set_version, set_type, bytes_of, big16, big32}
use libutp.SequenceBuffer.{initialize, get, put, size, ensure_size}
use libutp.Ledbat.{initial, set_initial_rto, add_in_flight, mark_window_full}
use libutp.Mtu.{unset, effective_mtu, should_rediscover, wants_probe}
use libutp.Connection.{fresh, connected, is_state}
use libutp.Receive.{ReceiveState}
use libutp.Send.{
  Socket, Host, Output, send_packet, sent_packet, bandwidth_of, rediscovered, probing, flying,
  send_data, overhead_of, stamp, get_packet_size, get_rcv_window, is_full, window_full, wanted,
  flush_packets, flush_from, flush_one, flush_pending, idle, passed, scan_begin, window_start,
  send_to, on_overhead, leave_ack_list, header_overhead,
}
use libutp.Send.Write.{
  write_outgoing_packet, write_rounds, write_round, last_packet, create_round, packet_of, extended,
  fill_header, gather,
}
use libutp.Send.Acks.{bit_set}
use libutp.Send.Feedback.{eack_mask, occupied}
use libutp.Send.Eack.{eack_mask-bit_set}
use libutp.Send.Trace.{Operation, write, run, IsSocket, run-IsSocket, start-IsSocket, start-Young}

abbrev host : Host
host = record {
  current_ms = 5000;
  milliseconds = 5000;
  microseconds = 70000;
  udp_mtu = 1400;
  udp_overhead = 28;
  read_buffer_size = 0;
  conn_id_send = 258;
}

-- The second packet after the awaited one waits.
abbrev receiving : ReceiveState
receiving = record {
  ack_nr = 9;
  reorder_count = 1;
  eof_pkt = 0;
  got_fin = false;
  got_fin_reached = false;
  read_shutdown = false;
  inbuf = put (initialize 16) 12 (some (7 ∷ []));
}

abbrev idle_socket : Socket
idle_socket = record {
  conn = record fresh { state = connected };
  seq_nr = 65535;
  cur_window_packets = 0;
  opt_sndbuf = 100000;
  opt_rcvbuf = 100000;
  max_window_user = 100000;
  flush_scan_start = 65535;
  outbuf = initialize 16;
  recv = receiving;
  last_rcv_win = 0;
  reply_micro = 3;
  last_sent_packet = 0;
  fast_timeout = false;
  timeout_seq_nr = 0;
  fast_resend_seq_nr = 65535;
  duplicate_ack = 0;
  cc = record initial { max_window = 5000 };
  mtu = record unset { ceiling = 1400; floor = 576; discover_time = 1000000 };
  extensions = replicate 8 0;
  target_delay = 100000;
  last_got_packet = 0;
  last_measured_delay = 0;
}

abbrev three_bytes : Operation
three_bytes = write 3 st_data ((1 ∷ 2 ∷ []) ∷ [] ∷ (3 ∷ 4 ∷ []) ∷ [])

-- The only packet is sent at once, and the window of sequence numbers wraps.
write_run :
    Option.map {B = List (List ℕ) × ℕ × ℕ × List Output}
      (λ r. (r.1, r.0.seq_nr, r.0.cc.cur_window, r.2))
      (write_outgoing_packet host idle_socket 3 st_data ((1 ∷ 2 ∷ []) ∷ [] ∷ (3 ∷ 4 ∷ []) ∷ []))
    ≡ some (
      [] ∷ [] ∷ (4 ∷ []) ∷ [],
      0,
      3,
      on_overhead 48 header_overhead
          ∷ send_to
              (1 ∷ 0 ∷ 1 ∷ 2 ∷ 0 ∷ 1 ∷ 17 ∷ 112 ∷ 0 ∷ 0 ∷ 0 ∷ 3 ∷ 0 ∷ 1 ∷ 134 ∷ 160 ∷ 255 ∷ 255 ∷ 0
                ∷ 9 ∷ 1 ∷ 2 ∷ 3 ∷ [])
              false
          ∷ leave_ack_list
          ∷ [],
    )
unfolding write_outgoing_packet write_rounds write_round last_packet create_round packet_of extended
    fill_header gather get_packet_size effective_mtu ensure_size put get initialize set_version
    set_type get_rcv_window flush_packets flush_from flush_one flush_pending idle passed scan_begin
    window_start is_full window_full wanted send_packet sent_packet bandwidth_of rediscovered
    probing flying send_data overhead_of stamp should_rediscover wants_probe add_in_flight bytes_of
    big16 big32 is_state set_initial_rto mark_window_full
write_run = refl

run-IsSocket_example : (s' : Socket) × (run host idle_socket three_bytes ≡ some s') × IsSocket s'
run-IsSocket_example =
    run-IsSocket host idle_socket three_bytes
      (start-IsSocket idle_socket refl (omega arith) refl refl) (start-Young idle_socket refl)
      (omega arith, omega arith)

eack_mask-bit_set_example :
    bit_set (eack_mask idle_socket) 1
    ≡ (ltb 1 (min 30 (size idle_socket.recv.inbuf)) && occupied (get idle_socket.recv.inbuf 12))
eack_mask-bit_set_example = eack_mask-bit_set idle_socket 1 (omega arith)
