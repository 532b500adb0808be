-- ===== src/Multicore/Fifo/Interleaving.antt =====
-- Both cores at once. `Push` and `Pop` are taken apart into the accesses that the other core can see,
-- one byte of a `memcpy` at a time, and the cores take steps in any order. `sent` and `received` are
-- the messages whose `Push` or `Pop` has come to its end.
pub mod Lossless
use common_embedded_platform.Prelude.{
  ℕ, zero, suc, ◌+◌, ◌≤◌, ◌<◌, ◌≡◌, ◌⊎◌, refl, sym, ap, subst, ◌∙◌, take_all, take-suc, take-set,
  get_elem?-set_self, get_elem?-some-lt, Bool, true, false, Option, some, List, [], ◌∷◌, ◌++◌,
  length, get_elem?, set, take, arith, inl, inr, Bool-cases, append_assoc, append-nil,
  length-append, length-set,
}
use common_embedded_platform.Multicore.Fifo.{Ipcc, Fifo, channel_free}
use common_embedded_platform.Multicore.Fifo.Mailbox.{IsAttached, free_after_pop, busy_after_push}

-- Where the core that sends stands in `Push`.
pub data Sender : Type 0 where
  idle : Sender
  waits : List ℕ → Sender
  copies : List ℕ → ℕ → Sender
  sized : List ℕ → Sender

-- Where the core that receives stands in `Pop`: the size that it has read, and its bytes so far.
pub data Receiver : Type 0 where
  idle : Receiver
  reads : ℕ → List ℕ → Receiver

pub record Link (S : Type 0) : Type 0 where
  pub fifo : Fifo
  pub ipcc : S
  pub sender : Sender
  pub receiver : Receiver
  pub sent : List (List ℕ)
  pub received : List (List ℕ)

module _ {S : Type 0} (c : Ipcc S) where
  abbrev pub free : Link S → Bool
  free l = channel_free c l.fifo l.ipcc

  pub data Step (l : Link S) : Link S → Type 0 where
    -- A message of at most `m_size` bytes; a longer one ends the call at once.
    calls_push :
        (d : List ℕ)
        → l.sender ≡ Sender.idle
        → length d ≤ l.fifo.size
        → Step l (record l { sender = waits d })
    sees_free :
        (d : List ℕ)
        → l.sender ≡ waits d
        → free l ≡ true
        → Step l (record l { sender = copies d 0 })
    copies_byte :
        (d : List ℕ) (k x : ℕ)
        → l.sender ≡ copies d k
        → get_elem? d k ≡ some x
        → Step l (record l {
          fifo = record (l.fifo) { buffer = set l.fifo.buffer k x };
          sender = copies d (suc k);
        })
    writes_size :
        (d : List ℕ) (k : ℕ)
        → l.sender ≡ copies d k
        → length d ≤ k
        → Step l (record l { fifo = record (l.fifo) { write_ptr = length d }; sender = sized d })
    marks_busy :
        (d : List ℕ)
        → l.sender ≡ sized d
        → Step l (record l {
          ipcc = c.set_busy l.fifo.primary_tx l.fifo.setmask l.ipcc;
          sender = Sender.idle;
          sent = l.sent ++ (d ∷ []);
        })
    -- `Peek`, and the read of `m_writePtr`; a `Pop` of a free channel ends at once.
    peeks :
        l.receiver ≡ Receiver.idle
        → free l ≡ false
        → Step l (record l { receiver = reads l.fifo.write_ptr [] })
    reads_byte :
        (p : ℕ) (got : List ℕ) (x : ℕ)
        → l.receiver ≡ reads p got
        → length got < p
        → get_elem? l.fifo.buffer (length got) ≡ some x
        → Step l (record l { receiver = reads p (got ++ (x ∷ [])) })
    marks_free :
        (p : ℕ) (got : List ℕ)
        → l.receiver ≡ reads p got
        → p ≤ length got
        → Step l (record l {
          ipcc = c.set_free l.fifo.primary_tx l.fifo.clearmask l.ipcc;
          receiver = Receiver.idle;
          received = l.received ++ (got ∷ []);
        })
    -- Whatever else happens to the controller, the flag of this channel stays.
    other_channels : (s : S) → channel_free c l.fifo s ≡ free l → Step l (record l { ipcc = s })

  pub data Reach (l : Link S) : Link S → Type 0 where
    here : Reach l l
    next : {m n : Link S} → Reach l m → Step m n → Reach l n
