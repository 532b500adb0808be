-- ===== src/Services/Iperf/Server/Returns.antt =====
-- `OnRxData` of the server returns.
use common_embedded_platform.Prelude.{
  ℕ, ◌≡◌, refl, sym, subst, Bool, true, Option, none, some, List,
}
use common_embedded_platform.Buffer.{ByteFifo, IsFifo}
use common_embedded_platform.Services.Iperf.{Connection, Net, Session, Iperf3Server}
use common_embedded_platform.Services.Iperf.Channel.Turns.{receive-ends}
use common_embedded_platform.Services.Iperf.Server.{put, found, stored, received, on_rx_data}

module _ {Q : Type 0} (net : Net Q) (fifo : ByteFifo Q) (behind : List ℕ) (capacity : ℕ)
    (law : IsFifo fifo capacity) where
  received-ends :
      (payload : List ℕ) (socket : ℕ) (o : Option (ℕ × Connection Q)) (s : Iperf3Server Q)
      → (r : Bool × Iperf3Server Q) × (received net fifo behind payload socket o s ≡ some r)
  received-ends payload socket none s = ((true, s), refl)
  received-ends payload socket (some (i, c)) s =
      let session : Session Q = record { connection = c; trace = s.trace } in
      let done = receive-ends net fifo behind capacity law payload socket session in
      (
        (done.0.0, put net fifo behind i done.0.1 s),
        subst
            (λ o. stored net fifo behind i o s ≡ some (done.0.0, put net fifo behind i done.0.1 s))
            (sym done.1) refl,
      )

  -- `OnRxData` returns, whatever is received and whatever state the connections are in: at most four
  -- turns of its loop are made.
  pub on_rx_data-returns :
      (payload : List ℕ) (socket : ℕ) (s : Iperf3Server Q)
      → (r : Bool × Iperf3Server Q) × (on_rx_data net fifo behind payload socket s ≡ some r)
  unfolding on_rx_data
  on_rx_data-returns payload socket s =
      received-ends payload socket
        (found net fifo behind (net.get_connection_id s.connections socket) s) s
