-- ===== src/Multicore/Fifo/Interleaving/Lossless.antt =====
-- No interleaving of `Push` and `Pop` loses, repeats or tears a message.
use common_embedded_platform.Prelude.{
  ℕ, suc, ◌≤◌, ◌<◌, ◌≡◌, ◌⊎◌, refl, sym, ap, subst, ◌∙◌, take_all, take-suc, take-set,
  get_elem?-set_self, get_elem?-some-lt, Bool, true, false, some, List, [], ◌∷◌, ◌++◌, length,
  get_elem?, set, take, arith, inl, inr, append-nil, length-append, length-set,
}
use common_embedded_platform.Multicore.Fifo.{Ipcc, channel_free}
use common_embedded_platform.Multicore.Fifo.Mailbox.{IsAttached, free_after_pop, busy_after_push}
use common_embedded_platform.Multicore.Fifo.Interleaving.{
  Sender, waits, copies, sized, Receiver, reads, Link, free, Step, calls_push, sees_free,
  copies_byte, writes_size, marks_busy, peeks, reads_byte, marks_free, other_channels, Reach, here,
  next,
}

module _ {S : Type 0} (c : Ipcc S) where
  abbrev SenderOk : Link S → Sender → Type 0
  SenderOk l Sender.idle = Unit {0}
  SenderOk l (waits d) = length d ≤ l.fifo.size
  SenderOk l (copies d k) =
      (free c l ≡ true)
      × (k ≤ length d)
      × (length d ≤ l.fifo.size)
      × (take k l.fifo.buffer ≡ take k d)
  SenderOk l (sized d) =
      (free c l ≡ true)
      × (l.fifo.write_ptr ≡ length d)
      × (take (length d) l.fifo.buffer ≡ d)
      × (length d ≤ l.fifo.size)

  abbrev ReceiverOk : Link S → Receiver → Type 0
  ReceiverOk l Receiver.idle = Unit {0}
  ReceiverOk l (reads p got) =
      (free c l ≡ false)
      × (p ≡ l.fifo.write_ptr)
      × (length got ≤ p)
      × (got ≡ take (length got) l.fifo.buffer)

  -- The message in the buffer, if the channel is busy.
  abbrev Flight : Link S → Bool → Type 0
  Flight l true = l.received ≡ l.sent
  Flight l false =
      (m : List ℕ) × (l.sent ≡ l.received ++ (m ∷ []))
      × (l.fifo.write_ptr ≡ length m)
      × (take (length m) l.fifo.buffer ≡ m)
      × (length m ≤ l.fifo.size)

  pub record IsOpen (i : ℕ) (l : Link S) : Type 0 where
    pub attached : IsAttached l.fifo i
    pub room : length l.fifo.buffer ≡ l.fifo.size
    pub sender_ok : SenderOk l l.sender
    pub receiver_ok : ReceiverOk l l.receiver
    pub flight : Flight l (free c l)

  Flight-free : (l : Link S) → free c l ≡ true → Flight l (free c l) → l.received ≡ l.sent
  Flight-free l e h = subst (Flight l) e h

  Flight-busy : (l : Link S) → free c l ≡ false → Flight l (free c l) → Flight l false
  Flight-busy l e h = subst (Flight l) e h

  -- While the channel is free the receiver is idle, whatever becomes of the buffer.
  receiver_idle :
      (l l' : Link S) (r : Receiver) → free c l ≡ true → ReceiverOk l r → ReceiverOk l' r
  receiver_idle l l' Receiver.idle e h = tt
  receiver_idle l l' (reads p got) e h = absurd (ground arith)

  -- While it is busy the sender does not touch the buffer.
  sender_off :
      (l l' : Link S) (sd : Sender)
      → free c l ≡ false
      → l'.fifo.size ≡ l.fifo.size
      → SenderOk l sd
      → SenderOk l' sd
  sender_off l l' Sender.idle e same h = tt
  sender_off l l' (waits d) e same h = rw same h
  sender_off l l' (copies d k) e same h = absurd (ground arith)
  sender_off l l' (sized d) e same h = absurd (ground arith)

  sender_same :
      (l : Link S) (s : S) (sd : Sender)
      → channel_free c l.fifo s ≡ free c l
      → SenderOk l sd
      → SenderOk (record l { ipcc = s }) sd
  sender_same l s Sender.idle e h = tt
  sender_same l s (waits d) e h = h
  sender_same l s (copies d k) e h = (e ∙ h.0, h.1, h.2, h.3)
  sender_same l s (sized d) e h = (e ∙ h.0, h.1, h.2, h.3)

  receiver_same :
      (l : Link S) (s : S) (r : Receiver)
      → channel_free c l.fifo s ≡ free c l
      → ReceiverOk l r
      → ReceiverOk (record l { ipcc = s }) r
  receiver_same l s Receiver.idle e h = tt
  receiver_same l s (reads p got) e h = (e ∙ h.0, h.1, h.2, h.3)

  copies_on :
      (d buf : List ℕ) (k x : ℕ)
      → get_elem? d k ≡ some x
      → k < length buf
      → take k buf ≡ take k d
      → take (suc k) (set buf k x) ≡ take (suc k) d
  copies_on d buf k x e lt same =
      take-suc (set buf k x) k x (get_elem?-set_self buf k x lt)
      ∙ rw (take-set buf k x, same) (sym (take-suc d k x e))

  Step-IsOpen : (i : ℕ) {l l' : Link S} → Step c l l' → IsOpen i l → IsOpen i l'
  Step-IsOpen i {l = l} (calls_push d e fits) h = record {
    attached = h.attached;
    room = h.room;
    sender_ok = fits;
    receiver_ok = h.receiver_ok;
    flight = h.flight;
  }
  Step-IsOpen i {l = l} (sees_free d e fr) h = record {
    attached = h.attached;
    room = h.room;
    sender_ok = (fr, omega arith, subst (SenderOk l) e h.sender_ok, refl);
    receiver_ok = h.receiver_ok;
    flight = h.flight;
  }
  Step-IsOpen i {l = l} (copies_byte d k x e byte) h =
      let ok : SenderOk l (copies d k) = subst (SenderOk l) e h.sender_ok in
      let l' = record l {
        fifo = record (l.fifo) { buffer = set l.fifo.buffer k x };
        sender = copies d (suc k);
      } in
      let lt : k < length d = get_elem?-some-lt d k x byte in
      record {
        attached = record {
          channel = h.attached.channel;
          set_bit = h.attached.set_bit;
          clear_bit = h.attached.clear_bit;
        };
        room = length-set l.fifo.buffer k x ∙ h.room;
        sender_ok =
            (ok.0, lt, ok.2, copies_on d l.fifo.buffer k x byte (omega (arith, h.room, ok.2)) ok.3);
        receiver_ok = receiver_idle l l' l.receiver ok.0 h.receiver_ok;
        flight = subst (Flight l') (sym ok.0) (Flight-free l ok.0 h.flight);
      }
  Step-IsOpen i {l = l} (writes_size d k e all) h =
      let ok : SenderOk l (copies d k) = subst (SenderOk l) e h.sender_ok in
      let l' = record l { fifo = record (l.fifo) { write_ptr = length d }; sender = sized d } in
      let k_eq : k ≡ length d = omega (arith, ok.1) in
      record {
        attached = record {
          channel = h.attached.channel;
          set_bit = h.attached.set_bit;
          clear_bit = h.attached.clear_bit;
        };
        room = h.room;
        sender_ok = (ok.0, refl, (rw k_eq at (ok.3)) ∙ take_all (length d) d (omega arith), ok.2);
        receiver_ok = receiver_idle l l' l.receiver ok.0 h.receiver_ok;
        flight = subst (Flight l') (sym ok.0) (Flight-free l ok.0 h.flight);
      }
  Step-IsOpen i {l = l} (marks_busy d e) h =
      let ok : SenderOk l (sized d) = subst (SenderOk l) e h.sender_ok in
      let l' = record l {
        ipcc = c.set_busy l.fifo.primary_tx l.fifo.setmask l.ipcc;
        sender = Sender.idle;
        sent = l.sent ++ (d ∷ []);
      } in
      let busy : free c l' ≡ false = busy_after_push c l.fifo i l.ipcc h.attached in
      record {
        attached = h.attached;
        room = h.room;
        sender_ok = tt;
        receiver_ok = receiver_idle l l' l.receiver ok.0 h.receiver_ok;
        flight =
            subst (Flight l') (sym busy)
              (d, ap (λ ms. ms ++ (d ∷ [])) (sym (Flight-free l ok.0 h.flight)), ok.1, ok.2, ok.3);
      }
  Step-IsOpen i {l = l} (peeks e busy) h = record {
    attached = h.attached;
    room = h.room;
    sender_ok = h.sender_ok;
    receiver_ok = (busy, refl, omega arith, refl);
    flight = h.flight;
  }
  Step-IsOpen i {l = l} (reads_byte p got x e lt byte) h =
      let ok : ReceiverOk l (reads p got) = subst (ReceiverOk l) e h.receiver_ok in
      let longer : length (got ++ (x ∷ [])) ≡ suc (length got) =
        length-append got (x ∷ []) ∙ omega arith in
      record {
        attached = h.attached;
        room = h.room;
        sender_ok = h.sender_ok;
        receiver_ok = (
          ok.0,
          ok.1,
          omega (arith, longer),
          rw (longer, take-suc l.fifo.buffer (length got) x byte) (ap (λ g. g ++ (x ∷ [])) ok.3),
        );
        flight = h.flight;
      }
  Step-IsOpen i {l = l} (marks_free p got e all) h =
      let ok : ReceiverOk l (reads p got) = subst (ReceiverOk l) e h.receiver_ok in
      let l' = record l {
        ipcc = c.set_free l.fifo.primary_tx l.fifo.clearmask l.ipcc;
        receiver = Receiver.idle;
        received = l.received ++ (got ∷ []);
      } in
      let fr : free c l' ≡ true = free_after_pop c l.fifo i l.ipcc h.attached in
      let (m, split, size, bytes, fits) = Flight-busy l ok.0 h.flight in
      let whole : length got ≡ length m = omega (arith, ok.1, ok.2, size) in
      let got_eq : got ≡ m = ok.3 ∙ rw whole bytes in
      record {
        attached = h.attached;
        room = h.room;
        sender_ok = sender_off l l' l.sender ok.0 refl h.sender_ok;
        receiver_ok = tt;
        flight = subst (Flight l') (sym fr) (rw split (ap (λ g. l.received ++ (g ∷ [])) got_eq));
      }
  Step-IsOpen i {l = l} (other_channels s e) h =
      let l' = record l { ipcc = s } in
      record {
        attached = h.attached;
        room = h.room;
        sender_ok = sender_same l s l.sender e h.sender_ok;
        receiver_ok = receiver_same l s l.receiver e h.receiver_ok;
        flight = subst (Flight l') (sym e) h.flight;
      }

  Reach-IsOpen : (i : ℕ) {l l' : Link S} → Reach c l l' → IsOpen i l → IsOpen i l'
  Reach-IsOpen i here h = h
  Reach-IsOpen i (next r st) h = Step-IsOpen i st (Reach-IsOpen i r h)

  one_behind :
      (l : Link S) (b : Bool)
      → Flight l b
      → (ms : List (List ℕ)) × (l.sent ≡ l.received ++ ms) × (length ms ≤ 1)
  one_behind l true h = ([], sym h ∙ sym (append-nil l.received), omega arith)
  one_behind l false h = (h.0 ∷ [], h.1, omega arith)

  -- However the steps of the two cores interleave, from a link in a consistent state: the messages
  -- that have been received are those that have been sent, whole, in order and none twice, but for at
  -- most one that is still in the buffer.
  pub no_message_lost :
      (i : ℕ) {l l' : Link S}
      → IsOpen i l
      → Reach c l l'
      → (ms : List (List ℕ)) × (l'.sent ≡ l'.received ++ ms) × (length ms ≤ 1)
  no_message_lost i {l' = l'} h r = one_behind l' (free c l') (Reach-IsOpen i r h).flight

  -- From a link in a consistent state: while one core is reading in `Pop`, the other one is outside `Push` or still waits in it: no byte
  -- of the buffer and no size is written under the reader.
  pub no_torn_message :
      (i : ℕ) {l l' : Link S} (p : ℕ) (got : List ℕ)
      → IsOpen i l
      → Reach c l l'
      → l'.receiver ≡ reads p got
      → (l'.sender ≡ Sender.idle) ⊎ ((e : List ℕ) × (l'.sender ≡ waits e))
  no_torn_message i {l' = l'} p got h r e =
      let h' = Reach-IsOpen i r h in
      let ok : ReceiverOk l' (reads p got) = subst (ReceiverOk l') e h'.receiver_ok in
      apart l'.sender refl (subst (SenderOk l') refl h'.sender_ok) ok.0
    where
      apart :
          (sd : Sender)
          → l'.sender ≡ sd
          → SenderOk l' sd
          → free c l' ≡ false
          → (l'.sender ≡ Sender.idle) ⊎ ((e : List ℕ) × (l'.sender ≡ waits e))
      apart Sender.idle q ok b = inl q
      apart (waits d') q ok b = inr (d', q)
      apart (copies d' k') q ok b = absurd (ground arith)
      apart (sized d') q ok b = absurd (ground arith)
