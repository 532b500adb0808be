-- ===== src/Services/Iperf/Server.antt =====
-- The server: its table of connections, datagrams, and the task that sends.
pub mod Limits
pub mod Reachable
pub mod Returns
use common_embedded_platform.Prelude.{
  ℕ, zero, suc, ◌+◌, ◌-◌, ◌*◌, ◌/◌, ◌%◌, Bool, true, false, not, ◌&&◌, Option, none, some, List, [],
  ◌∷◌, length, get_elem?, set, u32, ltb, leb, ◌==◌, if◌then◌else◌,
}
use common_embedded_platform.Buffer.{ByteFifo}
use common_embedded_platform.Services.Iperf.{
  Phase, iperf_start, create_streams, test_start, test_running, phase_code, Connection, NetEvent,
  send_datagram, NetTrace, Net, Session, Iperf3Server, clear,
}
use common_embedded_platform.Services.Iperf.Channel.{send, receive}

abbrev pub in_phase : Phase → Phase → Bool
in_phase a b = phase_code a == phase_code b

module _ {Q : Type 0} (net : Net Q) (fifo : ByteFifo Q) (behind : List ℕ) where
  abbrev put : ℕ → Session Q → Iperf3Server Q → Iperf3Server Q
  put i s server = record { connections = set server.connections i s.connection; trace = s.trace }

  abbrev pub restarted : Option (Connection Q) → ℕ → List (Connection Q) → List (Connection Q)
  restarted none i cs = cs
  restarted (some c) i cs = set cs i (record c { phase = iperf_start })

  -- The slot that `AllocateConnectionID` took.
  abbrev pub started : Option (ℕ × List (Connection Q)) → Iperf3Server Q → Iperf3Server Q
  started none server = server
  started (some (i, cs)) server = record server { connections = restarted (get_elem? cs i) i cs }

  unfoldable pub on_connection_accepted : ℕ → Iperf3Server Q → Iperf3Server Q
  on_connection_accepted socket server =
      started (net.allocate_connection_id server.connections socket) server

  abbrev pub with_index : ℕ → Option (Connection Q) → Option (ℕ × Connection Q)
  with_index i none = none
  with_index i (some c) = some (i, c)

  -- The connection of the slot that `GetConnectionID` found.
  abbrev pub found : Option ℕ → Iperf3Server Q → Option (ℕ × Connection Q)
  found none server = none
  found (some i) server = with_index i (get_elem? server.connections i)

  abbrev pub closed : Option (ℕ × Connection Q) → Iperf3Server Q → Iperf3Server Q
  closed none server = server
  closed (some (i, c)) server = record server {
    connections = set server.connections i (clear fifo c);
  }

  unfoldable pub on_connection_closed : ℕ → Iperf3Server Q → Iperf3Server Q
  on_connection_closed socket server =
      closed (found (net.get_connection_id server.connections socket) server) server

  abbrev pub stored :
      ℕ → Option (Bool × Session Q) → Iperf3Server Q → Option (Bool × Iperf3Server Q)
  stored i none server = none
  stored i (some (result, s)) server = some (result, put i s server)

  abbrev pub received :
      List ℕ → ℕ → Option (ℕ × Connection Q) → Iperf3Server Q → Option (Bool × Iperf3Server Q)
  received payload socket none server = some (true, server)
  received payload socket (some (i, c)) server =
      stored i
        (receive net fifo behind payload socket (record { connection = c; trace = server.trace }))
        server

  -- `OnRxData`.
  unfoldable pub on_rx_data : List ℕ → ℕ → Iperf3Server Q → Option (Bool × Iperf3Server Q)
  on_rx_data payload socket server =
      received payload socket (found (net.get_connection_id server.connections socket) server)
        server

  -- Whether a datagram from `ip` opens the stream of the connection.
  abbrev pub opens : ℕ → Connection Q → Bool
  opens ip c = c.valid && (in_phase c.phase create_streams && (net.remote_ip c.socket == ip))

  abbrev pub greeting : List ℕ
  greeting = (b'6' * 16777216 + b'7' * 65536 + b'8' * 256 + b'9') ∷ []

  -- The answer to it. Words of a datagram stand in network order.
  unfoldable pub open_stream : ℕ → Session Q → Session Q
  open_stream sport s =
      let c = s.connection in
      let ip = net.remote_ip c.socket in
      let opened = send net fifo behind c.socket (record {
        connection = record c { client_port = sport; phase = test_start };
        trace = send_datagram ip sport greeting 4 ∷ s.trace;
      }) in
      if net.has_packet s.trace ip then opened else s

  abbrev pub front : Session Q → List (Connection Q) → Iperf3Server Q
  front s cs = record { connections = s.connection ∷ cs; trace = s.trace }

  abbrev pub beside : Connection Q → Iperf3Server Q → Iperf3Server Q
  beside c server = record server { connections = c ∷ server.connections }

  -- The loop over the slots: the first connection that the datagram opens ends it.
  unfoldable pub udp_slots : ℕ → ℕ → List (Connection Q) → NetTrace → Iperf3Server Q
  udp_slots ip sport [] trace = record { connections = []; trace = trace }
  udp_slots ip sport (c ∷ cs) trace =
      let rest = udp_slots ip sport cs trace in
      if opens ip c
      then front (open_stream sport (record { connection = c; trace = trace })) cs
      else beside c rest

  unfoldable pub on_rx_udp_data : ℕ → ℕ → ℕ → Iperf3Server Q → Iperf3Server Q
  on_rx_udp_data ip sport dport server =
      if dport == 5201 then udp_slots ip sport server.connections server.trace else server

  -- The words from the fifth on.
  abbrev pub garbage : ℕ → ℕ → List ℕ
  garbage i zero = []
  garbage i (suc n) = i ∷ garbage (i + 1) n

  -- `FillPacket`: seconds, microseconds, sequence number, zero, garbage.
  abbrev pub fill_packet : ℕ → ℕ → ℕ → List ℕ
  fill_packet now seq len =
      u32 (now / 10000) ∷ now % 10000 * 100 ∷ seq ∷ 0 ∷ garbage 4 ((len + 3) / 4 - 4)

  unfoldable pub send_data_on_stream : Session Q → Session Q
  send_data_on_stream s =
      let c = s.connection in
      let ip = net.remote_ip c.socket in
      let seq = u32 (c.sequence + 1) in
      if net.has_packet s.trace ip
      then record {
        connection = record c { sequence = seq };
        trace =
            send_datagram ip c.client_port (fill_packet (net.count s.trace) seq c.len) c.len
            ∷ s.trace;
      }
      else s

  abbrev pub serve_in : Phase → Session Q → Session Q
  serve_in test_start s =
      let sent = send_data_on_stream s in
      send net fifo behind sent.connection.socket
        (record sent { connection = record (sent.connection) { phase = test_running } })
  serve_in test_running s = send_data_on_stream s
  serve_in _ s = s

  -- `Iteration`, which returns at the first slot that is not in use.
  unfoldable pub serve_slots : List (Connection Q) → NetTrace → Iperf3Server Q
  serve_slots [] trace = record { connections = []; trace = trace }
  serve_slots (c ∷ cs) trace =
      let s = serve_in c.phase (record { connection = c; trace = trace }) in
      let rest = serve_slots cs s.trace in
      if c.valid then beside s.connection rest else record { connections = c ∷ cs; trace = trace }

  unfoldable pub iteration : Iperf3Server Q → Iperf3Server Q
  iteration server = serve_slots server.connections server.trace
