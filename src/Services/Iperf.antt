-- ===== src/Services/Iperf.antt =====
-- `Iperf3Server` (services/Iperf3Server.cpp and .h). The TCP and UDP stack is of another repository: what
-- the server does to it is a trace, and its answers are functions of the trace. Log output is left out.
pub mod Json
pub mod Channel
pub mod Server
use common_embedded_platform.Prelude.{
  ℕ, ◌+◌, ◌-◌, ◌*◌, ◌≡◌, Bool, true, false, Option, none, some, List, [], ◌∷◌, get_elem?, set,
  get_or, replicate,
}
use common_embedded_platform.Buffer.{ByteFifo}

pub data Phase : Type 0 where
  iperf_start param_exchange create_streams test_start test_running test_end exchange_results
        display_results iperf_done :
      Phase

-- The numbers that the protocol gives to them.
abbrev pub phase_code : Phase → ℕ
phase_code iperf_start = 15
phase_code param_exchange = 9
phase_code create_streams = 10
phase_code test_start = 1
phase_code test_running = 2
phase_code test_end = 4
phase_code exchange_results = 13
phase_code display_results = 14
phase_code iperf_done = 16

pub data Mode : Type 0 where
  mode_tcp mode_udp : Mode

-- `IperfConnectionState`. A socket is a number, 0 is the null pointer.
pub record Connection (Q : Type 0) : Type 0 where
  pub phase : Phase
  pub valid : Bool
  pub socket : ℕ
  pub cookie : List ℕ
  pub rx_buffer : Q
  pub mode : Mode
  pub time : ℕ
  pub bandwidth : ℕ
  pub len : ℕ
  pub reverse_mode : Bool
  pub client_port : ℕ
  pub sequence : ℕ

pub data NetEvent : Type 0 where
  -- A byte on a control channel.
  send_state : ℕ → ℕ → NetEvent
  -- The results: the socket, bytes, packets and seconds, and the request to display them.
  send_results : ℕ → ℕ → ℕ → ℕ → ℕ → NetEvent
  -- A datagram: address, port, words of the payload, length in bytes.
  send_datagram : ℕ → ℕ → List ℕ → ℕ → NetEvent
  close_socket : ℕ → NetEvent

-- The newest event comes first.
abbrev pub NetTrace : Type 0
NetTrace = List NetEvent

-- The stack and the C library: whether there is a buffer for a segment or a datagram, the address at the
-- other end of a socket, the count of g_logTimer, `atoi`, and the slots of `TCPServer`.
pub record Net (Q : Type 0) : Type 0 where
  pub has_segment : NetTrace → ℕ → Bool
  pub has_packet : NetTrace → ℕ → Bool
  pub remote_ip : ℕ → ℕ
  pub count : NetTrace → ℕ
  pub atoi : List ℕ → ℕ
  pub get_connection_id : List (Connection Q) → ℕ → Option ℕ
  pub allocate_connection_id : List (Connection Q) → ℕ → Option (ℕ × List (Connection Q))

-- One connection and the trace.
pub record Session (Q : Type 0) : Type 0 where
  pub connection : Connection Q
  pub trace : NetTrace

pub record Iperf3Server (Q : Type 0) : Type 0 where
  pub connections : List (Connection Q)
  pub trace : NetTrace

-- `Clear`.
abbrev pub clear : {Q : Type 0} → ByteFifo Q → Connection Q → Connection Q
clear fifo c = record {
  phase = iperf_start;
  valid = false;
  socket = 0;
  cookie = replicate 38 0;
  rx_buffer = fifo.reset c.rx_buffer;
  mode = mode_tcp;
  time = 0;
  bandwidth = 0;
  len = 0;
  reverse_mode = false;
  client_port = 0;
  sequence = 0;
}
