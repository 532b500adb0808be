-- ===== src/Services/Iperf/Channel.antt =====
-- The control channel of one connection.
pub mod Turns
pub mod Negotiation
pub mod Bounds
use common_embedded_platform.Prelude.{
  ℕ, zero, suc, ◌+◌, ◌-◌, ◌*◌, Bool, true, false, not, ◌&&◌, Option, none, some, List, [], ◌∷◌,
  ◌++◌, length, get_or, take, drop, u32, ltb, leb, ◌==◌, if◌then◌else◌,
}
use common_embedded_platform.Buffer.{ByteFifo}
use common_embedded_platform.Services.Iperf.{
  Phase, iperf_start, param_exchange, create_streams, test_start, test_running, test_end,
  exchange_results, display_results, iperf_done, phase_code, Mode, mode_tcp, mode_udp, Connection,
  NetEvent, send_state, send_results, close_socket, NetTrace, Net, Session, clear,
}
use common_embedded_platform.Services.Iperf.Json.{Parser, parse_config}

-- `__builtin_bswap32` of the word in front.
abbrev pub word_of : List ℕ → ℕ
word_of p = get_or p 0 0 * 16777216 + get_or p 1 0 * 65536 + get_or p 2 0 * 256 + get_or p 3 0

abbrev pub is_udp : Mode → Bool
is_udp mode_udp = true
is_udp mode_tcp = false

module _ {Q : Type 0} (net : Net Q) (fifo : ByteFifo Q) (behind : List ℕ) where
  -- What `Rewind` points to: the bytes that are buffered, and `behind` them whatever stands in memory.
  abbrev pub rewind : Connection Q → List ℕ
  rewind c = fifo.contents c.rx_buffer ++ behind

  abbrev pub size : Connection Q → ℕ
  size c = length (fifo.contents c.rx_buffer)

  -- `GracefulDisconnect` and `DropConnection` are the same.
  abbrev pub drop_connection : ℕ → Session Q → Session Q
  drop_connection socket s = record {
    connection = clear fifo s.connection;
    trace = close_socket socket ∷ s.trace;
  }

  -- `SendState`, which sends nothing when there is no segment.
  abbrev pub send : ℕ → Session Q → Session Q
  send socket s =
      if net.has_segment s.trace socket
      then record s { trace = send_state socket (phase_code s.connection.phase) ∷ s.trace }
      else s

  unfoldable pub on_rx_cookie : ℕ → Session Q → Bool × Session Q
  on_rx_cookie socket s =
      let c = s.connection in
      if ltb (size c) 37 then (false, s) else (
        true,
        send socket (record s {
          connection = record c {
            cookie = take 37 (rewind c) ++ drop 37 c.cookie;
            rx_buffer = fifo.pop 37 c.rx_buffer;
            phase = param_exchange;
          };
        }),
      )

  -- The checks that end `OnRxParamExchange`.
  abbrev pub check_config : ℕ → Session Q → Session Q
  check_config socket s =
      let c = s.connection in
      if is_udp c.mode && (c.reverse_mode && ltb c.len 1480) then s else drop_connection socket s

  abbrev pub after_parse : ℕ → ℕ → Session Q → Option (Parser Q) → Session Q
  after_parse socket len s none = drop_connection socket s
  after_parse socket len s (some p) = check_config socket (
      send socket (record s {
        connection = record (p.config) {
          rx_buffer = fifo.pop (u32 (4 + len)) p.config.rx_buffer;
          phase = create_streams;
        };
      }))

  unfoldable pub on_rx_param_exchange : ℕ → Session Q → Bool × Session Q
  on_rx_param_exchange socket s =
      let c = s.connection in
      let len = word_of (rewind c) in
      let json = drop 4 (rewind c) in
      if ltb (size c) 6
      then (false, s)
      else if ltb (size c) (u32 (4 + len))
      then (false, s)
      else if not (get_or json 0 0 == b'{')
      then (false, s)
      else (true, after_parse socket len s (parse_config net len (drop 1 (take len json)) c))

  unfoldable pub on_rx_end : ℕ → Session Q → Bool × Session Q
  on_rx_end socket s =
      let c = s.connection in
      let popped = record c { rx_buffer = fifo.pop 1 c.rx_buffer } in
      let ended =
        send socket (record s { connection = record popped { phase = exchange_results } }) in
      if not (get_or (rewind c) 0 0 == phase_code test_end)
      then (false, record s { connection = popped })
      else if net.has_segment ended.trace socket
      then (
        true,
        record ended {
          trace =
              send_results socket (u32 (c.sequence * c.len)) c.sequence c.time
                (phase_code display_results)
              ∷ ended.trace;
        },
      )
      else (false, ended)

  -- One turn of the loop of `OnRxData`: `some` of the result that is returned, `none` to go on.
  unfoldable pub turn : Phase → ℕ → Session Q → Option Bool × Session Q
  turn iperf_start socket s =
      let r = on_rx_cookie socket s in (if r.0 then none else some true, r.1)
  turn param_exchange socket s =
      let r = on_rx_param_exchange socket s in (if r.0 then none else some true, r.1)
  turn create_streams socket s = (some true, s)
  turn test_running socket s = (some true, (on_rx_end socket s).1)
  turn exchange_results socket s = (some true, s)
  turn _ socket s = (some false, s)

  abbrev pub returned :
      Option Bool → Session Q → Option (Bool × Session Q) → Option (Bool × Session Q)
  returned none s rest = rest
  returned (some result) s rest = some (result, s)

  -- `none` when the fuel is used up.
  unfoldable pub turns : ℕ → ℕ → Session Q → Option (Bool × Session Q)
  turns zero socket s = none
  turns (suc n) socket s =
      let r = turn s.connection.phase socket s in
      let rest = turns n socket r.1 in returned (r.0) r.1 rest

  -- `OnRxData` for the connection of the socket. The cookie, the parameters, and a turn that ends it.
  unfoldable pub receive : List ℕ → ℕ → Session Q → Option (Bool × Session Q)
  receive payload socket s =
      let pushed = fifo.push payload s.connection.rx_buffer in
      let held = record s { connection = record (s.connection) { rx_buffer = pushed.1 } } in
      let rest = turns 4 socket held in
      if pushed.0 then rest else some (false, drop_connection socket held)
