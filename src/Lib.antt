-- ===== src/Lib.antt =====
-- libutp: the uTP transport protocol. This library models the protocol logic of the C++ sources in
-- src/, part by part, with theorems about them.
--
-- The parts and how they interact. Datagrams come in through `process_udp`, which finds the socket
-- by address and connection id. The socket parses the packet (`parse_packet`), drops what is out of
-- its windows, takes the acknowledgements into the send window and the congestion controller, and
-- delivers data in order from a ring buffer (`deliver_data`). Acknowledgements are deferred on a
-- list of the context and sent together. The controller (LEDBAT) turns one-way delays into a window;
-- the MTU search sends probes as ordinary packets; the connection's state decides what `close`,
-- `shutdown`, resets and timeouts do.
--
-- Files, with the sources that they model:
--   SequenceBuffer  src/utp/sequence_buffer.hpp, `utp::SequenceBuffer`: a list of optional elements
--     and the mask. `grow` is `next_size` (the doubling loop), `migrate` (the loop that moves) and
--     `resized`. Ring has the invariant, Grow the loops, Window the view as a window.
--   DelayHistory  src/utp/delay_history.hpp, `utp::DelayHistory` and `wrapping_compare_less`.
--     `add_sample` is its stages in the source's order. Ideal is the same history over plain
--     distances, Wrap the relation of the two, Session a run.
--   Mtu  src/utp/mtu_discovery.hpp, `MtuDiscovery`, one function per method; `wants_probe` is the
--     test in `UtpSocket::send_packet` and `on_icmp_fragmentation` the method of src/utp_socket.hpp.
--   Wire  src/utp/wire_format.hpp and src/utp/endian.hpp: the header as a record and as twenty bytes.
--   Parse  src/utp_process.cpp, `parse_packet`, over the list of a packet's bytes.
--   Ledbat  src/utp/ledbat.hpp and src/utp/ledbat.cpp, `LedbatController`; `apply_ccontrol` with its
--     arithmetic of `double` as a parameter is Ledbat/Ccontrol.
--   AckList  src/utp_context.cpp, `schedule_ack`, `remove_ack`, `issue_deferred_acks`.
--   Connection  src/utp_socket.cpp, src/utp_socket.hpp, src/utp/connection_state.hpp: the state and
--     the flags of closing, with a handler for each place that writes them; Lifecycle has the step
--     relation over the handlers.
--   Receive  src/utp_process.cpp, `deliver_data` and the drop of old packets in `process_incoming`.
--   Send  src/utp_socket.cpp and src/utp_socket.hpp, the sending half of `UtpSocket`: `send_data`,
--     `send_packet`, `is_full`, `flush_packets` and `check_invariant`. Send/Write has
--     `write_outgoing_packet`, `writev` and the FIN, Send/Acks `ack_packet`, `selective_ack_bytes` and
--     `selective_ack`, Send/Feedback `send_ack`, `send_keep_alive`, `send_rst` and `read_drained`,
--     Send/Timeouts `check_timeouts`, Send/Advance the `advance_send_window` of src/utp_process.cpp
--     with the count of duplicates of `process_incoming`. Send/Invariant is the sender's invariant;
--     Acking, Advancing, Flushing, Pushing, Writing and Expiry show that the operations keep it, and
--     Trace has them with their arguments. Send/Eack is the bitmap of an acknowledgement.
--   Incoming  src/utp_process.cpp, `process_incoming` and `process_acks`: Parse, Receive, Send and the
--     controller put together as the code does. Untouched, Steps, Timers, Intake and Inbox have what
--     each half keeps, Totality a datagram, and Life the step relation over all that a socket goes
--     through.
--   Context  src/utp_process.cpp and src/utp_context.cpp: `process_udp` and the ICMP handlers over a
--     list of sockets, the cache of resets; Context/Expire has the context's `check_timeouts` and
--     `destroy_socket`. Lookup has the invariant, Routing, Strays, Accepted and Rounds what a
--     datagram and a round of the timer do.
--   Address  src/utp/address.cpp, `Address`: the conversions from and to socket addresses.
--   Options  src/utp_context.cpp, `set_option` and `get_option`, with `would_log` of
--     src/utp_internal.h.
--   Base  what the others share: tests, lists, words, masks, integers.
--
-- Integers. A word of w bits is a natural number with `% 2 ^ w` written out where the source's
-- arithmetic wraps; `sub16`, `sub32` and `sub64` are the wrapping differences. A signed number is an
-- integer. Assertions are not part of the functions; what they ask is a hypothesis or is proved.
--
-- Fuel. `next_size` has 64 doublings, after which a size of 64 bits has wrapped to 0. `walk` has as
-- many rounds as the packet has bytes, and each takes two. `issue_from` has a round more than the
-- list has sockets, and each takes one off. `drain` has a round more than the count of packets that
-- wait, which each round lowers. `write_rounds` has two rounds, since a round that appends to the
-- last packet is followed by at most one that makes a new packet. `writev_from` has a round more than
-- there are bytes. `expire_from` has a round more than there are records, each of which it passes or removes.
-- The loops over the window and over a bitmap are counted by its size.
--
-- Clocks and callbacks are read once for an operation and are in `Host` or `Calls`. The theorems on the
-- sender are for packets that have been sent fewer than 2 ^ 30 times, since their count has 31 bits.
--
-- Callbacks are events, outputs or effects of the handler that calls them, and do not call back into the
-- socket; what a datagram makes a socket do is an action of the context. Not modelled: the set-up of a
-- connection by `initialize` and `connect` beyond its state, the counters of packets; the hash and the
-- text of addresses, the public wrappers, the table of callbacks and logging, which are input, output
-- or glue.
pub mod Base
pub mod SequenceBuffer
pub mod DelayHistory
pub mod Mtu
pub mod Wire
pub mod Ledbat
pub mod Parse
pub mod AckList
pub mod Connection
pub mod Receive
pub mod Options
pub mod Send
pub mod Incoming
pub mod Address
pub mod Context
