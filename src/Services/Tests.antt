-- ===== src/Services/Tests.antt =====
-- A client of the iperf3 server.
use common_embedded_platform.Prelude.{
  drop, ℕ, ◌+◌, ◌-◌, ◌*◌, ◌≡◌, refl, sym, ap, ◌∙◌, if-either, if◌then◌else◌, Bool, true, false,
  Option, none, some, List, [], ◌∷◌, ◌++◌, get_elem?, set, replicate, arith,
}
use common_embedded_platform.Buffer.{list_fifo, list_fifo-IsFifo}
use common_embedded_platform.Services.Iperf.{
  iperf_start, param_exchange, create_streams, mode_tcp, mode_udp, Connection, send_state,
  send_datagram, Net, Session, Iperf3Server,
}
use common_embedded_platform.Services.Iperf.Json.{
  on_json_config_field, json_step, json_run, ended_at, parse_config,
}
use common_embedded_platform.Services.Iperf.Channel.{
  on_rx_cookie, on_rx_param_exchange, turn, turns, receive,
}
use common_embedded_platform.Services.Iperf.Channel.Bounds.{
  on_rx_param_exchange-in_bounds, on_rx_param_exchange-wraps,
}
use common_embedded_platform.Services.Iperf.Server.{
  on_connection_accepted, on_rx_data, open_stream, udp_slots, on_rx_udp_data, send_data_on_stream,
  serve_slots, iteration,
}
use common_embedded_platform.Services.Iperf.Server.Returns.{on_rx_data-returns}
use common_embedded_platform.Services.Iperf.Server.Limits.{
  IsTable, accepts, receives, gets_datagram, iterates, here, next, IsFair,
}
use common_embedded_platform.Services.Iperf.Server.Reachable.{Reach-IsFair}

-- One slot, which a socket takes only while it is free.
abbrev allocate : List (Connection (List ℕ)) → ℕ → Option (ℕ × List (Connection (List ℕ)))
allocate [] socket = none
allocate (c ∷ cs) socket =
    if c.valid then none else some (0, record c { valid = true; socket = socket } ∷ cs)

-- Decimal digits behind the number `n`.
abbrev number : ℕ → List ℕ → ℕ
number n [] = n
number n (c ∷ cs) = number (n * 10 + (c - b'0')) cs

abbrev net : Net (List ℕ)
net = record {
  has_segment = λ t socket. true;
  has_packet = λ t ip. true;
  remote_ip = λ socket. socket + 100;
  count = λ t. 20005;
  atoi = number 0;
  get_connection_id = λ cs socket. some 0;
  allocate_connection_id = allocate;
}

abbrev or_start : Option (ℕ × List (Connection (List ℕ))) → ℕ × List (Connection (List ℕ))
or_start none = (0, [])
or_start (some r) = r

allocates_slot :
    (cs cs' : List (Connection (List ℕ))) (socket i : ℕ)
    → allocate cs socket ≡ some (i, cs')
    → (c : Connection (List ℕ)) × (get_elem? cs i ≡ some c)
      × (cs' ≡ set cs i (record c { valid = true; socket = socket }))
allocates_slot [] cs' socket i e = absurd (ground arith)
allocates_slot (c ∷ cs) cs' socket i e =
    let taken = record c { valid = true; socket = socket } ∷ cs in
    if-either
      (λ o.
        o ≡ some (i, cs')
        → (d : Connection (List ℕ)) × (get_elem? (c ∷ cs) i ≡ some d)
          × (cs' ≡ set (c ∷ cs) i (record d { valid = true; socket = socket })))
      c.valid none (some (0, taken)) (λ x f. absurd (ground arith))
      (λ y f.
        let same : (0, taken) ≡ (i, cs') = ap or_start f in
        let at : 0 ≡ i = ap (λ r. r.0) same in
        let rest : taken ≡ cs' = ap (λ r. r.1) same in
        (
          c,
          ap (λ j. get_elem? (c ∷ cs) j) (sym at),
          sym rest ∙ ap (λ j. set (c ∷ cs) j (record c { valid = true; socket = socket })) at,
        ))
      e

net-IsTable : IsTable net
net-IsTable = record { allocates = allocates_slot }

abbrev idle : Connection (List ℕ)
idle = record {
  phase = iperf_start;
  valid = false;
  socket = 0;
  cookie = replicate 38 0;
  rx_buffer = [];
  mode = mode_tcp;
  time = 0;
  bandwidth = 0;
  len = 0;
  reverse_mode = false;
  client_port = 0;
  sequence = 0;
}

abbrev start : Iperf3Server (List ℕ)
start = record { connections = idle ∷ []; trace = [] }

-- {"udp":true,"reverse":true,"len":16}
abbrev blob : List ℕ
blob =
    b'{' ∷ b'"' ∷ b'u' ∷ b'd' ∷ b'p' ∷ b'"' ∷ b':' ∷ b't' ∷ b'r' ∷ b'u' ∷ b'e' ∷ b',' ∷ b'"' ∷ b'r'
    ∷ b'e' ∷ b'v' ∷ b'e' ∷ b'r' ∷ b's' ∷ b'e' ∷ b'"' ∷ b':' ∷ b't' ∷ b'r' ∷ b'u' ∷ b'e' ∷ b','
    ∷ b'"' ∷ b'l' ∷ b'e' ∷ b'n' ∷ b'"' ∷ b':' ∷ b'1' ∷ b'6' ∷ b'}' ∷ []

abbrev hello : List ℕ
hello = replicate 37 b'c' ++ (0 ∷ 0 ∷ 0 ∷ 36 ∷ blob)

abbrev accepted : Iperf3Server (List ℕ)
accepted = on_connection_accepted net (list_fifo 256) [] 7 start

-- The parameters are agreed on, the client has been asked to open its stream.
abbrev agreed : Iperf3Server (List ℕ)
agreed = record {
  connections =
      record idle {
        phase = create_streams;
        valid = true;
        socket = 7;
        cookie = replicate 37 b'c' ++ (0 ∷ []);
        mode = mode_udp;
        len = 16;
        reverse_mode = true;
      }
      ∷ [];
  trace = send_state 7 10 ∷ send_state 7 9 ∷ [];
}

hello_run : on_rx_data net (list_fifo 256) [] hello 7 accepted ≡ some (true, agreed)
unfolding on_rx_data on_connection_accepted receive turns turn on_rx_cookie on_rx_param_exchange
    json_run json_step on_json_config_field
hello_run = refl

-- Its greeting opens it, and the task sends the first datagram.
abbrev opened : Iperf3Server (List ℕ)
opened = on_rx_udp_data net (list_fifo 256) [] 107 9000 5201 agreed

abbrev running : Iperf3Server (List ℕ)
running = iteration net (list_fifo 256) [] opened

running_run :
    running.trace
    ≡ send_state 7 2
      ∷ send_datagram 107 9000 (2 ∷ 500 ∷ 1 ∷ 0 ∷ []) 16
      ∷ send_state 7 1
      ∷ send_datagram 107 9000 (909588537 ∷ []) 4
      ∷ agreed.trace
unfolding iteration on_rx_udp_data serve_slots udp_slots open_stream send_data_on_stream
running_run = refl

on_rx_data-returns_example :
    (r : Bool × Iperf3Server (List ℕ)) × (on_rx_data net (list_fifo 256) [] hello 7 accepted
      ≡ some r)
on_rx_data-returns_example =
    on_rx_data-returns net (list_fifo 256) [] 256 (list_fifo-IsFifo 256) hello 7 accepted

Reach-IsFair_example : IsFair net (list_fifo 256) [] running
Reach-IsFair_example =
    Reach-IsFair net (list_fifo 256) [] net-IsTable start running
      (next
        (next (next (next here (accepts 7)) (receives hello 7 true agreed hello_run))
          (gets_datagram 107 9000 5201))
        iterates)
      ((λ open_phase. absurd (ground arith), tt), tt)

-- A connection with the parameters in its buffer.
abbrev waiting : Session (List ℕ)
waiting = record {
  connection = record idle { phase = param_exchange; rx_buffer = 0 ∷ 0 ∷ 0 ∷ 36 ∷ blob };
  trace = [];
}

on_rx_param_exchange-in_bounds_example :
    on_rx_param_exchange net (list_fifo 256) (1 ∷ 2 ∷ 3 ∷ []) 7 waiting
    ≡ on_rx_param_exchange net (list_fifo 256) [] 7 waiting
on_rx_param_exchange-in_bounds_example =
    on_rx_param_exchange-in_bounds net (list_fifo 256) (1 ∷ 2 ∷ 3 ∷ []) 7 waiting (omega arith)

-- The length 2 ^ 32 - 1, a brace, and one more byte.
abbrev overlong : Session (List ℕ)
overlong = record waiting {
  connection = record idle {
    phase = param_exchange;
    rx_buffer = 255 ∷ 255 ∷ 255 ∷ 255 ∷ b'{' ∷ b'"' ∷ [];
  };
}

on_rx_param_exchange-wraps_test : (on_rx_param_exchange net (list_fifo 256) [] 7 overlong).0 ≡ true
on_rx_param_exchange-wraps_test =
    on_rx_param_exchange-wraps net (list_fifo 256) [] 7 overlong (omega arith) refl (omega arith)
      (omega arith)

-- A whole blob in which the closing brace ends the parser, with the length 2 ^ 32 - 1.
wrapped_test : ended_at net 4294967295 (parse_config net 36 (drop 1 blob) idle) ≡ none
unfolding json_run json_step on_json_config_field
wrapped_test = refl

-- A brace is missing: the connection waits.
abbrev braceless : Session (List ℕ)
braceless = record waiting {
  connection = record idle { phase = param_exchange; rx_buffer = 0 ∷ 0 ∷ 0 ∷ 2 ∷ b'"' ∷ b'"' ∷ [] };
}

abbrev stuck : Session (List ℕ)
stuck = record waiting {
  connection = record idle {
    phase = param_exchange;
    rx_buffer = 0 ∷ 0 ∷ 0 ∷ 2 ∷ b'"' ∷ b'"' ∷ b'{' ∷ [];
  };
}

stuck_test : receive net (list_fifo 256) [] (b'{' ∷ []) 7 braceless ≡ some (true, stuck)
unfolding receive turns turn on_rx_param_exchange
stuck_test = refl
