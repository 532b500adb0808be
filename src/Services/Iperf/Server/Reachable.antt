-- ===== src/Services/Iperf/Server/Reachable.antt =====
-- Every state that the server can reach.
use common_embedded_platform.Prelude.{
  ℕ, ◌+◌, ◌≡◌, refl, ap, ◌∙◌, subst, true, List, [], ◌∷◌, u32, ◌==◌, if-either, All, arith,
}
use common_embedded_platform.Buffer.{ByteFifo}
use common_embedded_platform.Services.Iperf.{
  Phase, iperf_start, param_exchange, create_streams, test_start, test_running, test_end,
  exchange_results, display_results, iperf_done, Connection, send_datagram, NetTrace, Net, Session,
  Iperf3Server,
}
use common_embedded_platform.Services.Iperf.Channel.{send}
use common_embedded_platform.Services.Iperf.Channel.Negotiation.{
  is_open, IsNegotiated, IsSmall, Sound, send-Sound,
}
use common_embedded_platform.Services.Iperf.Server.{
  in_phase, found, on_connection_closed, opens, greeting, open_stream, front, beside, udp_slots,
  on_rx_udp_data, fill_packet, send_data_on_stream, serve_in, serve_slots, iteration,
}
use common_embedded_platform.Services.Iperf.Server.Limits.{
  IsTable, Step, accepts, closes, receives, gets_datagram, iterates, Reach, here, next, IsFair,
  accepted-IsFair, closed-IsFair, rx-IsFair, FairResult,
}

module _ {Q : Type 0} (net : Net Q) (fifo : ByteFifo Q) (behind : List ℕ) where
  create_streams-open : (p : Phase) → in_phase p create_streams ≡ true → is_open p ≡ true
  create_streams-open p h = ground arith

  open_stream-Sound :
      (sport : ℕ) (s : Session Q)
      → is_open s.connection.phase ≡ true
      → Sound net fifo behind s
      → Sound net fifo behind (open_stream net fifo behind sport s)
  unfolding open_stream
  open_stream-Sound sport s at h =
      let c = s.connection in
      let ip = net.remote_ip c.socket in
      let agreed = h.0 at in
      let greeted : Session Q = record {
        connection = record c { client_port = sport; phase = test_start };
        trace = send_datagram ip sport (greeting net fifo behind) 4 ∷ s.trace;
      } in
      if-either (Sound net fifo behind) (net.has_packet s.trace ip)
        (send net fifo behind c.socket greeted) s
        (λ x.
          send-Sound net fifo behind c.socket greeted (λ open_phase. agreed, (omega arith, h.1)))
        (λ y. h)

  udp-IsFair :
      (ip sport : ℕ) (cs : List (Connection Q)) (trace : NetTrace)
      → All IsNegotiated cs
      → All IsSmall trace
      → IsFair net fifo behind (udp_slots net fifo behind ip sport cs trace)
  unfolding udp_slots
  udp-IsFair ip sport [] trace h k = (tt, k)
  udp-IsFair ip sport (c ∷ cs) trace h k =
      let s : Session Q = record { connection = c; trace = trace } in
      let opened = open_stream net fifo behind sport s in
      let rest = udp-IsFair ip sport cs trace h.1 k in
      if-either (IsFair net fifo behind) (opens net fifo behind ip c)
        (front net fifo behind opened cs)
        (beside net fifo behind c (udp_slots net fifo behind ip sport cs trace))
        (λ x.
          let sound =
            open_stream-Sound sport s (create_streams-open c.phase (ground arith)) (h.0, k) in
          ((sound.0, h.1), sound.1))
        (λ y. ((h.0, rest.0), rest.1))

  data_sent-Sound :
      (s : Session Q)
      → is_open s.connection.phase ≡ true
      → Sound net fifo behind s
      → Sound net fifo behind (send_data_on_stream net fifo behind s)
        × ((send_data_on_stream net fifo behind s).connection.phase ≡ s.connection.phase)
  unfolding send_data_on_stream
  data_sent-Sound s at h =
      let c = s.connection in
      let ip = net.remote_ip c.socket in
      let seq = u32 (c.sequence + 1) in
      let agreed = h.0 at in
      if-either (λ r. Sound net fifo behind r × (r.connection.phase ≡ c.phase))
        (net.has_packet s.trace ip)
        (record {
          connection = record c { sequence = seq };
          trace =
              send_datagram ip c.client_port
                (fill_packet net fifo behind (net.count s.trace) seq c.len) c.len
              ∷ s.trace;
        })
        s (λ x. ((h.0, (agreed.2, h.1)), refl)) (λ y. (h, refl))

  served-Sound :
      (p : Phase) (s : Session Q)
      → s.connection.phase ≡ p
      → Sound net fifo behind s
      → Sound net fifo behind (serve_in net fifo behind p s)
  served-Sound test_start s at h =
      let opened = ap is_open at in
      let sent = data_sent-Sound s opened h in
      let after = send_data_on_stream net fifo behind s in
      let agreed = sent.0.0 (ap is_open sent.1 ∙ opened) in
      send-Sound net fifo behind after.connection.socket
        (record after { connection = record (after.connection) { phase = test_running } })
        (λ open_phase. agreed, sent.0.1)
  served-Sound test_running s at h = (data_sent-Sound s (ap is_open at) h).0
  served-Sound iperf_start s at h = h
  served-Sound param_exchange s at h = h
  served-Sound create_streams s at h = h
  served-Sound test_end s at h = h
  served-Sound exchange_results s at h = h
  served-Sound display_results s at h = h
  served-Sound iperf_done s at h = h

  slots-IsFair :
      (cs : List (Connection Q)) (trace : NetTrace)
      → All IsNegotiated cs
      → All IsSmall trace
      → IsFair net fifo behind (serve_slots net fifo behind cs trace)
  unfolding serve_slots
  slots-IsFair [] trace h k = (tt, k)
  slots-IsFair (c ∷ cs) trace h k =
      let s : Session Q = record { connection = c; trace = trace } in
      let served = serve_in net fifo behind c.phase s in
      let sound = served-Sound c.phase s refl (h.0, k) in
      let rest = slots-IsFair cs served.trace h.1 sound.1 in
      if-either (IsFair net fifo behind) c.valid
        (beside net fifo behind served.connection (serve_slots net fifo behind cs served.trace))
        (record { connections = c ∷ cs; trace = trace }) (λ x. ((sound.0, rest.0), rest.1))
        (λ y. (h, k))

module _ {Q : Type 0} (net : Net Q) (fifo : ByteFifo Q) (behind : List ℕ)
    (table : IsTable net) where
  Step-IsFair :
      (s t : Iperf3Server Q)
      → Step net fifo behind s t
      → IsFair net fifo behind s
      → IsFair net fifo behind t
  unfolding on_connection_closed on_rx_udp_data iteration
  Step-IsFair s _ (accepts socket) h = accepted-IsFair net fifo behind table socket s h
  Step-IsFair s _ (closes socket) h =
      closed-IsFair net fifo behind table
        (found net fifo behind (net.get_connection_id s.connections socket) s) s h
  Step-IsFair s t (receives payload socket result _ e) h =
      subst (λ o. FairResult net fifo behind table o) e
        (rx-IsFair net fifo behind table payload socket s h)
  Step-IsFair s _ (gets_datagram ip sport dport) h =
      if-either (IsFair net fifo behind) (dport == 5201)
        (udp_slots net fifo behind ip sport s.connections s.trace) s
        (λ x. udp-IsFair net fifo behind ip sport s.connections s.trace h.0 h.1) (λ y. h)
  Step-IsFair s _ iterates h = slots-IsFair net fifo behind s.connections s.trace h.0 h.1

  -- Whatever the stack reports and the main loop calls, in any order, from a server on: if its connections
  -- that are past the exchange of the parameters have the mode UDP, the reverse mode and a block length
  -- below 1480, and if each datagram that it has sent has less than 1480 bytes, this is still so.
  pub Reach-IsFair :
      (s t : Iperf3Server Q)
      → Reach net fifo behind s t
      → IsFair net fifo behind s
      → IsFair net fifo behind t
  Reach-IsFair s _ here h = h
  Reach-IsFair s _ (next {t = t} {u = u} r step) h = Step-IsFair t u step (Reach-IsFair s t r h)
