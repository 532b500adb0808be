-- ===== src/Services/Iperf/Channel/Turns.antt =====
-- The loop of `OnRxData` ends.
use common_embedded_platform.Prelude.{
  ℕ, zero, suc, ◌+◌, ◌≤◌, ◌<◌, ◌≡◌, inl, inr, refl, sym, ap, ◌∙◌, subst, Bool, true, false, not,
  ◌&&◌, Option, none, some, List, ◌++◌, length, get_or, take, drop, u32, ltb, ◌==◌, if◌then◌else◌,
  if-either, Option-cases, arith,
}
use common_embedded_platform.Buffer.{ByteFifo, IsFifo}
use common_embedded_platform.Services.Iperf.{
  Phase, iperf_start, param_exchange, create_streams, test_start, test_running, test_end,
  exchange_results, display_results, iperf_done, Connection, Net, Session,
}
use common_embedded_platform.Services.Iperf.Json.{Parser, parse_config}
use common_embedded_platform.Services.Iperf.Channel.{
  word_of, is_udp, rewind, size, drop_connection, send, on_rx_cookie, check_config, after_parse,
  on_rx_param_exchange, turn, returned, turns, receive,
}

module _ {Q : Type 0} (net : Net Q) (fifo : ByteFifo Q) (behind : List ℕ) (capacity : ℕ)
    (law : IsFifo fifo capacity) where
  -- `SendState` leaves the connection as it is.
  send-connection :
      (socket : ℕ) (s : Session Q) → (send net fifo behind socket s).connection ≡ s.connection
  send-connection socket s = ground arith

  -- How many turns can follow, this one included.
  abbrev turns_in : Phase → Connection Q → ℕ
  turns_in iperf_start c = if ltb (size net fifo behind c) 37 then 1 else 3
  turns_in param_exchange c = 2
  turns_in _ c = 1

  abbrev turns_left : Session Q → ℕ
  turns_left s = turns_in s.connection.phase s.connection

  dropped-turns :
      (socket : ℕ) (s : Session Q) → turns_left (drop_connection net fifo behind socket s) ≡ 1
  dropped-turns socket s =
      let empty = ap length (law.reset_contents s.connection.rx_buffer) in ground arith

  checked-turns :
      (socket : ℕ) (s : Session Q)
      → s.connection.phase ≡ create_streams
      → turns_left (check_config net fifo behind socket s) ≡ 1
  checked-turns socket s at =
      let c = s.connection in
      if-either (λ r. turns_left r ≡ 1) (is_udp c.mode && (c.reverse_mode && ltb c.len 1480)) s
        (drop_connection net fifo behind socket s) (λ x. ap (λ p. turns_in p c) at)
        (λ y. dropped-turns socket s)

  parsed-turns :
      (socket len : ℕ) (s : Session Q) (o : Option (Parser Q))
      → turns_left (after_parse net fifo behind socket len s o) ≡ 1
  parsed-turns socket len s none = dropped-turns socket s
  parsed-turns socket len s (some p) =
      let next = record s {
        connection = record (p.config) {
          rx_buffer = fifo.pop (u32 (4 + len)) p.config.rx_buffer;
          phase = create_streams;
        };
      } in
      checked-turns socket (send net fifo behind socket next)
        (ap (λ c. c.phase) (send-connection socket next))

  cookie-turns :
      (socket : ℕ) (s : Session Q)
      → s.connection.phase ≡ iperf_start
      → (on_rx_cookie net fifo behind socket s).0 ≡ true
      → turns_left (on_rx_cookie net fifo behind socket s).1 < turns_left s
  unfolding on_rx_cookie
  cookie-turns socket s at =
      let c = s.connection in
      let next = record s {
        connection = record c {
          cookie = take 37 (rewind net fifo behind c) ++ drop 37 c.cookie;
          rx_buffer = fifo.pop 37 c.rx_buffer;
          phase = param_exchange;
        };
      } in
      if-either {A = Bool × Session Q} (λ r. r.0 ≡ true → turns_left r.1 < turns_left s)
        (ltb (size net fifo behind c) 37) (false, s) (true, send net fifo behind socket next)
        (λ x h. absurd (ground arith))
        (λ y h.
          let two : turns_left (send net fifo behind socket next) ≡ 2 =
            ap (λ d. turns_in d.phase d) (send-connection socket next) in
          let three : turns_left s ≡ 3 =
            ap (λ p. turns_in p c) at ∙ ap (λ b. if b then 1 else 3) y in
          omega (arith, two, three))

  param-turns :
      (socket : ℕ) (s : Session Q)
      → s.connection.phase ≡ param_exchange
      → (on_rx_param_exchange net fifo behind socket s).0 ≡ true
      → turns_left (on_rx_param_exchange net fifo behind socket s).1 < turns_left s
  unfolding on_rx_param_exchange
  param-turns socket s at =
      let c = s.connection in
      let len = word_of (rewind net fifo behind c) in
      let json = drop 4 (rewind net fifo behind c) in
      let parsed = parse_config net len (drop 1 (take len json)) c in
      let one = parsed-turns socket len s parsed in
      let two : turns_left s ≡ 2 = ap (λ p. turns_in p c) at in
      let P : Bool × Session Q → Type 0 = λ r. r.0 ≡ true → turns_left r.1 < turns_left s in
      let good : Bool × Session Q = (true, after_parse net fifo behind socket len s parsed) in
      let third = if not (get_or json 0 0 == b'{') then (false, s) else good in
      if-either P (ltb (size net fifo behind c) 6) (false, s)
        (if ltb (size net fifo behind c) (u32 (4 + len)) then (false, s) else third)
        (λ x h. absurd (ground arith))
        (λ x.
          if-either P (ltb (size net fifo behind c) (u32 (4 + len))) (false, s) third
            (λ y h. absurd (ground arith))
            (λ y.
              if-either P (not (get_or json 0 0 == b'{')) (false, s) good
                (λ z h. absurd (ground arith)) (λ z h. omega (arith, one, two))))

  turn-less :
      (phase : Phase) (socket : ℕ) (s : Session Q)
      → s.connection.phase ≡ phase
      → (turn net fifo behind phase socket s).0 ≡ none
      → turns_left (turn net fifo behind phase socket s).1 < turns_left s
  unfolding turn
  turn-less iperf_start socket s at e = cookie-turns socket s at (ground arith)
  turn-less param_exchange socket s at e = param-turns socket s at (ground arith)
  turn-less create_streams socket s at e = absurd (ground arith)
  turn-less test_running socket s at e = absurd (ground arith)
  turn-less exchange_results socket s at e = absurd (ground arith)
  turn-less test_start socket s at e = absurd (ground arith)
  turn-less test_end socket s at e = absurd (ground arith)
  turn-less display_results socket s at e = absurd (ground arith)
  turn-less iperf_done socket s at e = absurd (ground arith)

  one_turn : (phase : Phase) (c : Connection Q) → (1 ≤ turns_in phase c) × (turns_in phase c ≤ 3)
  one_turn phase c = ground arith

  turns-end :
      (n socket : ℕ) (s : Session Q)
      → turns_left s ≤ n
      → (r : Bool × Session Q) × (turns net fifo behind n socket s ≡ some r)
  unfolding turns
  turns-end zero socket s h =
      absurd (omega (arith, h, (one_turn s.connection.phase s.connection).0))
  turns-end (suc n) socket s h =
      let r = turn net fifo behind s.connection.phase socket s in
      let rest = turns net fifo behind n socket r.1 in
      let P : Option Bool → Type 0 =
        λ o. (t : Bool × Session Q) × (returned net fifo behind o r.1 rest ≡ some t) in
      elim (Option-cases (r.0)) [
        | inl goes ↦
            let less = turn-less s.connection.phase socket s refl goes in
            subst P (sym goes) (turns-end n socket r.1 (omega (arith, less, h)))
        | inr stops ↦ subst P (sym stops.1) ((stops.0, r.1), refl)
      ]

  pub receive-ends :
      (payload : List ℕ) (socket : ℕ) (s : Session Q)
      → (r : Bool × Session Q) × (receive net fifo behind payload socket s ≡ some r)
  unfolding receive
  receive-ends payload socket s =
      let pushed = fifo.push payload s.connection.rx_buffer in
      let held = record s { connection = record (s.connection) { rx_buffer = pushed.1 } } in
      let most = (one_turn held.connection.phase held.connection).1 in
      if-either (λ o. (r : Bool × Session Q) × (o ≡ some r)) pushed.0
        (turns net fifo behind 4 socket held)
        (some (false, drop_connection net fifo behind socket held))
        (λ x. turns-end 4 socket held (omega (arith, most)))
        (λ y. ((false, drop_connection net fifo behind socket held), refl))
