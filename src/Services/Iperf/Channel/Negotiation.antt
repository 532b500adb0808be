-- ===== src/Services/Iperf/Channel/Negotiation.antt =====
-- Streams have negotiated parameters, whatever a client sends.
use common_embedded_platform.Prelude.{
  ℕ, zero, suc, ◌+◌, ◌*◌, ◌<◌, ◌≡◌, refl, ap, Bool, true, false, not, ◌&&◌, Option, none, some,
  List, ◌∷◌, ◌++◌, get_or, take, drop, u32, ltb, ◌==◌, if◌then◌else◌, if-either, All, arith,
}
use common_embedded_platform.Buffer.{ByteFifo}
use common_embedded_platform.Services.Iperf.{
  Phase, iperf_start, param_exchange, create_streams, test_start, test_running, test_end,
  exchange_results, display_results, iperf_done, phase_code, Connection, NetEvent, send_state,
  send_results, send_datagram, Net, Session,
}
use common_embedded_platform.Services.Iperf.Json.{Parser, parse_config}
use common_embedded_platform.Services.Iperf.Channel.{
  word_of, is_udp, rewind, size, drop_connection, send, on_rx_cookie, check_config, after_parse,
  on_rx_param_exchange, on_rx_end, turn, returned, turns, receive,
}

-- The phases behind the exchange of the parameters.
abbrev pub is_open : Phase → Bool
is_open create_streams = true
is_open test_start = true
is_open test_running = true
is_open exchange_results = true
is_open _ = false

abbrev pub IsNegotiated : {Q : Type 0} → Connection Q → Type 0
IsNegotiated c =
    is_open c.phase ≡ true → (is_udp c.mode ≡ true) × (c.reverse_mode ≡ true) × (c.len < 1480)

-- Datagrams of less than 1480 bytes.
abbrev pub IsSmall : NetEvent → Type 0
IsSmall (send_datagram ip port words n) = n < 1480
IsSmall _ = Unit

module _ {Q : Type 0} (net : Net Q) (fifo : ByteFifo Q) (behind : List ℕ) where
  abbrev pub Sound : Session Q → Type 0
  Sound s = IsNegotiated s.connection × All IsSmall s.trace

  pub send-Sound : (socket : ℕ) (s : Session Q) → Sound s → Sound (send net fifo behind socket s)
  send-Sound socket s h =
      if-either Sound (net.has_segment s.trace socket)
        (record s { trace = send_state socket (phase_code s.connection.phase) ∷ s.trace }) s
        (λ x. (h.0, (tt, h.1))) (λ y. h)

  drop-Sound :
      (socket : ℕ) (s : Session Q)
      → All IsSmall s.trace
      → Sound (drop_connection net fifo behind socket s)
  drop-Sound socket s small = (λ open_phase. absurd (ground arith), (tt, small))

  check-Sound :
      (socket : ℕ) (s : Session Q)
      → All IsSmall s.trace
      → Sound (check_config net fifo behind socket s)
  check-Sound socket s small =
      let c = s.connection in
      if-either Sound (is_udp c.mode && (c.reverse_mode && ltb c.len 1480)) s
        (drop_connection net fifo behind socket s) (λ x. (λ open_phase. ground arith, small))
        (λ y. drop-Sound socket s small)

  send-IsSmall :
      (socket : ℕ) (s : Session Q)
      → All IsSmall s.trace
      → All IsSmall (send net fifo behind socket s).trace
  send-IsSmall socket s small =
      if-either (λ r. All IsSmall r.trace) (net.has_segment s.trace socket)
        (record s { trace = send_state socket (phase_code s.connection.phase) ∷ s.trace }) s
        (λ x. (tt, small)) (λ y. small)

  parsed-Sound :
      (socket len : ℕ) (s : Session Q) (o : Option (Parser Q))
      → All IsSmall s.trace
      → Sound (after_parse net fifo behind socket len s o)
  parsed-Sound socket len s none small = drop-Sound socket s small
  parsed-Sound socket len s (some p) small =
      let next = record s {
        connection = record (p.config) {
          rx_buffer = fifo.pop (u32 (4 + len)) p.config.rx_buffer;
          phase = create_streams;
        };
      } in
      check-Sound socket (send net fifo behind socket next) (send-IsSmall socket next small)

  cookie-Sound :
      (socket : ℕ) (s : Session Q) → Sound s → Sound (on_rx_cookie net fifo behind socket s).1
  unfolding on_rx_cookie
  cookie-Sound socket s h =
      let c = s.connection in
      let next = record s {
        connection = record c {
          cookie = take 37 (rewind net fifo behind c) ++ drop 37 c.cookie;
          rx_buffer = fifo.pop 37 c.rx_buffer;
          phase = param_exchange;
        };
      } in
      if-either {A = Bool × Session Q} (λ r. Sound r.1) (ltb (size net fifo behind c) 37) (false, s)
        (true, send net fifo behind socket next) (λ x. h)
        (λ y. send-Sound socket next (λ open_phase. absurd (ground arith), h.1))

  param-Sound :
      (socket : ℕ) (s : Session Q)
      → Sound s
      → Sound (on_rx_param_exchange net fifo behind socket s).1
  unfolding on_rx_param_exchange
  param-Sound socket s h =
      let c = s.connection in
      let len = word_of (rewind net fifo behind c) in
      let json = drop 4 (rewind net fifo behind c) in
      let parsed = parse_config net len (drop 1 (take len json)) c in
      let P : Bool × Session Q → Type 0 = λ r. Sound r.1 in
      let good : Bool × Session Q = (true, after_parse net fifo behind socket len s parsed) in
      let third = if not (get_or json 0 0 == b'{') then (false, s) else good in
      if-either P (ltb (size net fifo behind c) 6) (false, s)
        (if ltb (size net fifo behind c) (u32 (4 + len)) then (false, s) else third) (λ x. h)
        (λ x.
          if-either P (ltb (size net fifo behind c) (u32 (4 + len))) (false, s) third (λ y. h)
            (λ y.
              if-either P (not (get_or json 0 0 == b'{')) (false, s) good (λ z. h)
                (λ z. parsed-Sound socket len s parsed h.1)))

  end-Sound :
      (socket : ℕ) (s : Session Q)
      → s.connection.phase ≡ test_running
      → Sound s
      → Sound (on_rx_end net fifo behind socket s).1
  unfolding on_rx_end
  end-Sound socket s at h =
      let c = s.connection in
      let popped = record c { rx_buffer = fifo.pop 1 c.rx_buffer } in
      let agreed = h.0 (ap is_open at) in
      let next = record s { connection = record popped { phase = exchange_results } } in
      let ended = send net fifo behind socket next in
      let sound = send-Sound socket next (λ open_phase. agreed, h.1) in
      let refused : Bool × Session Q = (false, record s { connection = popped }) in
      let sent : Bool × Session Q = (
        true,
        record ended {
          trace =
              send_results socket (u32 (c.sequence * c.len)) c.sequence c.time
                (phase_code display_results)
              ∷ ended.trace;
        },
      ) in
      let unsent : Bool × Session Q = (false, ended) in
      let P : Bool × Session Q → Type 0 = λ r. Sound r.1 in
      if-either P (not (get_or (rewind net fifo behind c) 0 0 == phase_code test_end)) refused
        (if net.has_segment ended.trace socket then sent else unsent) (λ x. h)
        (λ x.
          if-either P (net.has_segment ended.trace socket) sent unsent
            (λ y. (sound.0, (tt, sound.1))) (λ y. sound))

  turn-Sound :
      (phase : Phase) (socket : ℕ) (s : Session Q)
      → s.connection.phase ≡ phase
      → Sound s
      → Sound (turn net fifo behind phase socket s).1
  unfolding turn
  turn-Sound iperf_start socket s at h = cookie-Sound socket s h
  turn-Sound param_exchange socket s at h = param-Sound socket s h
  turn-Sound create_streams socket s at h = h
  turn-Sound test_running socket s at h = end-Sound socket s at h
  turn-Sound exchange_results socket s at h = h
  turn-Sound test_start socket s at h = h
  turn-Sound test_end socket s at h = h
  turn-Sound display_results socket s at h = h
  turn-Sound iperf_done socket s at h = h

  -- What a result that is there satisfies.
  abbrev pub SoundResult : Option (Bool × Session Q) → Type 0
  SoundResult none = Unit
  SoundResult (some r) = Sound r.1

  returned-Sound :
      (o : Option Bool) (s : Session Q) (rest : Option (Bool × Session Q))
      → Sound s
      → SoundResult rest
      → SoundResult (returned net fifo behind o s rest)
  returned-Sound none s rest h k = k
  returned-Sound (some result) s rest h k = h

  turns-Sound :
      (n socket : ℕ) (s : Session Q) → Sound s → SoundResult (turns net fifo behind n socket s)
  unfolding turns
  turns-Sound zero socket s h = tt
  turns-Sound (suc n) socket s h =
      let r = turn net fifo behind s.connection.phase socket s in
      let next = turn-Sound s.connection.phase socket s refl h in
      returned-Sound (r.0) r.1 (turns net fifo behind n socket r.1) next
        (turns-Sound n socket r.1 next)

  pub receive-Sound :
      (payload : List ℕ) (socket : ℕ) (s : Session Q)
      → Sound s
      → SoundResult (receive net fifo behind payload socket s)
  unfolding receive
  receive-Sound payload socket s h =
      let pushed = fifo.push payload s.connection.rx_buffer in
      let held = record s { connection = record (s.connection) { rx_buffer = pushed.1 } } in
      if-either SoundResult pushed.0 (turns net fifo behind 4 socket held)
        (some (false, drop_connection net fifo behind socket held))
        (λ x. turns-Sound 4 socket held h) (λ y. drop-Sound socket held h.1)
