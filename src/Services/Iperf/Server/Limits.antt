-- ===== src/Services/Iperf/Server/Limits.antt =====
-- What holds of the server whatever comes from the network, in any order.
use common_embedded_platform.Prelude.{
  ℕ, ◌≡◌, inl, inr, refl, sym, subst, Bool, true, Option, none, some, List, get_elem?, set, All,
  All-set, All-get_elem?, Option-cases, arith,
}
use common_embedded_platform.Buffer.{ByteFifo}
use common_embedded_platform.Services.Iperf.{
  iperf_start, Connection, Net, Session, Iperf3Server, clear,
}
use common_embedded_platform.Services.Iperf.Channel.{receive}
use common_embedded_platform.Services.Iperf.Channel.Negotiation.{
  IsNegotiated, IsSmall, SoundResult, receive-Sound,
}
use common_embedded_platform.Services.Iperf.Server.{
  restarted, started, on_connection_accepted, with_index, found, closed, on_connection_closed,
  stored, received, on_rx_data, on_rx_udp_data, iteration,
}

-- `AllocateConnectionID` takes a slot for the socket and leaves the rest of the table alone.
pub record IsTable {Q : Type 0} (net : Net Q) : Type 0 where
  pub allocates :
      (cs cs' : List (Connection Q)) (socket i : ℕ)
      → net.allocate_connection_id cs socket ≡ some (i, cs')
      → (c : Connection Q) × (get_elem? cs i ≡ some c)
        × (cs' ≡ set cs i (record c { valid = true; socket = socket }))

module _ {Q : Type 0} (net : Net Q) (fifo : ByteFifo Q) (behind : List ℕ) where
  -- The calls that the stack and the main loop make.
  pub data Step (s : Iperf3Server Q) : Iperf3Server Q → Type 0 where
    accepts : (socket : ℕ) → Step s (on_connection_accepted net fifo behind socket s)
    closes : (socket : ℕ) → Step s (on_connection_closed net fifo behind socket s)
    receives :
        (payload : List ℕ) (socket : ℕ) (result : Bool) (t : Iperf3Server Q)
        → on_rx_data net fifo behind payload socket s ≡ some (result, t)
        → Step s t
    gets_datagram : (ip sport dport : ℕ) → Step s (on_rx_udp_data net fifo behind ip sport dport s)
    iterates : Step s (iteration net fifo behind s)

  pub data Reach (s : Iperf3Server Q) : Iperf3Server Q → Type 0 where
    here : Reach s s
    next : {t u : Iperf3Server Q} → Reach s t → Step t u → Reach s u

  -- Every stream has parameters that were agreed on, no datagram is too long.
  abbrev pub IsFair : Iperf3Server Q → Type 0
  IsFair s = All IsNegotiated s.connections × All IsSmall s.trace

module _ {Q : Type 0} (net : Net Q) (fifo : ByteFifo Q) (behind : List ℕ)
    (table : IsTable net) where
  restarted-IsNegotiated :
      (o : Option (Connection Q)) (i : ℕ) (cs : List (Connection Q))
      → All IsNegotiated cs
      → All IsNegotiated (restarted net fifo behind o i cs)
  restarted-IsNegotiated none i cs h = h
  restarted-IsNegotiated (some c) i cs h =
      All-set IsNegotiated cs i (record c { phase = iperf_start }) h
        (λ open_phase. absurd (ground arith))

  allocated-IsNegotiated :
      (cs cs' : List (Connection Q)) (socket i : ℕ)
      → net.allocate_connection_id cs socket ≡ some (i, cs')
      → All IsNegotiated cs
      → All IsNegotiated cs'
  allocated-IsNegotiated cs cs' socket i e h =
      let slot = table.allocates cs cs' socket i e in
      subst (λ xs. All IsNegotiated xs) (sym slot.2)
        (All-set IsNegotiated cs i (record (slot.0) { valid = true; socket = socket }) h
          (All-get_elem? IsNegotiated cs i slot.0 h slot.1))

  started-IsFair :
      (o : Option (ℕ × List (Connection Q))) (s : Iperf3Server Q)
      → ((i : ℕ) (cs : List (Connection Q)) → o ≡ some (i, cs) → All IsNegotiated cs)
      → IsFair net fifo behind s
      → IsFair net fifo behind (started net fifo behind o s)
  started-IsFair none s cells h = h
  started-IsFair (some (i, cs)) s cells h =
      (restarted-IsNegotiated (get_elem? cs i) i cs (cells i cs refl), h.1)

  pub accepted-IsFair :
      (socket : ℕ) (s : Iperf3Server Q)
      → IsFair net fifo behind s
      → IsFair net fifo behind (on_connection_accepted net fifo behind socket s)
  unfolding on_connection_accepted
  accepted-IsFair socket s h =
      started-IsFair (net.allocate_connection_id s.connections socket) s
        (λ i cs e. allocated-IsNegotiated s.connections cs socket i e h.0) h

  pub closed-IsFair :
      (o : Option (ℕ × Connection Q)) (s : Iperf3Server Q)
      → IsFair net fifo behind s
      → IsFair net fifo behind (closed net fifo behind o s)
  closed-IsFair none s h = h
  closed-IsFair (some (i, c)) s h = (
    All-set IsNegotiated s.connections i (clear fifo c) h.0 (λ open_phase. absurd (ground arith)),
    h.1,
  )

  -- What a connection that was found satisfies.
  abbrev FoundOne : Option (ℕ × Connection Q) → Type 0
  FoundOne none = Unit
  FoundOne (some (i, c)) = IsNegotiated c

  found-one :
      (o : Option ℕ) (s : Iperf3Server Q)
      → All IsNegotiated s.connections
      → FoundOne (found net fifo behind o s)
  found-one none s h = tt
  found-one (some i) s h = elim (Option-cases (get_elem? s.connections i)) [
    | inl none_there ↦ subst (λ o. FoundOne (with_index net fifo behind i o)) (sym none_there) tt
    | inr there ↦
        subst (λ o. FoundOne (with_index net fifo behind i o)) (sym there.1)
          (All-get_elem? IsNegotiated s.connections i there.0 h there.1)
  ]

  abbrev pub FairResult : Option (Bool × Iperf3Server Q) → Type 0
  FairResult none = Unit
  FairResult (some r) = IsFair net fifo behind r.1

  stored-IsFair :
      (i : ℕ) (o : Option (Bool × Session Q)) (s : Iperf3Server Q)
      → SoundResult net fifo behind o
      → All IsNegotiated s.connections
      → FairResult (stored net fifo behind i o s)
  stored-IsFair i none s h k = tt
  stored-IsFair i (some r) s h k = (All-set IsNegotiated s.connections i r.1.connection k h.0, h.1)

  received-IsFair :
      (payload : List ℕ) (socket : ℕ) (o : Option (ℕ × Connection Q)) (s : Iperf3Server Q)
      → FoundOne o
      → IsFair net fifo behind s
      → FairResult (received net fifo behind payload socket o s)
  received-IsFair payload socket none s f h = h
  received-IsFair payload socket (some (i, c)) s f h =
      let session : Session Q = record { connection = c; trace = s.trace } in
      stored-IsFair i (receive net fifo behind payload socket session) s
        (receive-Sound net fifo behind payload socket session (f, h.1)) h.0

  pub rx-IsFair :
      (payload : List ℕ) (socket : ℕ) (s : Iperf3Server Q)
      → IsFair net fifo behind s
      → FairResult (on_rx_data net fifo behind payload socket s)
  unfolding on_rx_data
  rx-IsFair payload socket s h =
      received-IsFair payload socket
        (found net fifo behind (net.get_connection_id s.connections socket) s) s
        (found-one (net.get_connection_id s.connections socket) s h.0) h
