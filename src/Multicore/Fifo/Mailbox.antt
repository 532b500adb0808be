-- ===== src/Multicore/Fifo/Mailbox.antt =====
-- The FIFO, called by one core at a time, is a mailbox for one message.
use common_embedded_platform.Prelude.{
  ℕ, ◌≤◌, ◌<◌, ◌^◌, ◌+◌, ◌≡◌, ◌↔◌, refl, Bool, true, false, none, some, List, [], length, take,
  drop, arith, take-length, u32, ◌==◌, ==_iff, passes, passes_at, ap,
}
use common_embedded_platform.Multicore.Fifo.{
  Ipcc, Fifo, fill, channel_free, peek, push, pop, initialize,
}

-- The masks are those that `Initialize` computes for a channel of the controller.
pub record IsAttached (f : Fifo) (i : ℕ) : Type 0 where
  pub channel : i < 16
  pub set_bit : f.setmask ≡ 2 ^ (16 + i)
  pub clear_bit : f.clearmask ≡ 2 ^ i

shift_table : passes (λ i. u32 (2 ^ i) == 2 ^ i) 0 32 ≡ true
unfolding passes
shift_table = refl

shift_fits : (i : ℕ) → i < 32 → u32 (2 ^ i) ≡ 2 ^ i
shift_fits i h =
    (==_iff _ _).0
      (passes_at (λ i. u32 (2 ^ i) == 2 ^ i) 0 32 i shift_table (omega arith) (omega (arith, h)))

pub initialize-IsAttached :
    (buf : List ℕ) (size i : ℕ) (tx : Bool) (f : Fifo)
    → i < 16
    → IsAttached (initialize buf size i tx f) i
unfolding initialize
initialize-IsAttached buf size i tx f h = record {
  channel = h;
  set_bit = shift_fits (16 + i) (omega arith);
  clear_bit = shift_fits i (omega arith);
}

module _ {S : Type 0} (c : Ipcc S) where
  -- The other end's FIFO object: both cores use the one in shared memory.
  pub free_after_pop :
      (f : Fifo) (i : ℕ) (s : S)
      → IsAttached f i
      → channel_free c f (c.set_free f.primary_tx f.clearmask s) ≡ true
  free_after_pop f i s a = rw (a.clear_bit, c.free_lem f.primary_tx i s a.channel)

  pub busy_after_push :
      (f : Fifo) (i : ℕ) (s : S)
      → IsAttached f i
      → channel_free c f (c.set_busy f.primary_tx f.setmask s) ≡ false
  busy_after_push f i s a = rw (a.set_bit, a.clear_bit, c.busy_lem f.primary_tx i s a.channel)

  push-free :
      (bytes : List ℕ) (f : Fifo) (s : S)
      → length bytes ≤ f.size
      → channel_free c f s ≡ true
      → push c bytes f s ≡ some (fill bytes f, c.set_busy f.primary_tx f.setmask s)
  unfolding push
  push-free bytes f s fits free = ground arith

  pop-busy :
      (f : Fifo) (s : S)
      → channel_free c f s ≡ false
      → pop c f s ≡ (take f.write_ptr f.buffer, c.set_free f.primary_tx f.clearmask s)
  unfolding pop
  pop-busy f s busy = ground arith

  take-fill :
      (bytes : List ℕ) (f : Fifo) → take (fill bytes f).write_ptr (fill bytes f).buffer ≡ bytes
  unfolding fill
  take-fill bytes f = take-length bytes (drop (length bytes) f.buffer)

  -- A message that fits, pushed while the channel is free, is what the next `Pop` copies out, byte for
  -- byte; after the push the channel is busy, and after the pop it is free again.
  pub pop-push :
      (bytes : List ℕ) (f : Fifo) (i : ℕ) (s : S)
      → IsAttached f i
      → length bytes ≤ f.size
      → channel_free c f s ≡ true
      → (f' : Fifo) × (s' s'' : S) × (push c bytes f s ≡ some (f', s'))
        × (peek c f' s' ≡ true)
        × (pop c f' s' ≡ (bytes, s''))
        × (peek c f' s'' ≡ false)
  unfolding fill peek
  pop-push bytes f i s a fits free =
      let f' = fill bytes f in
      let s' = c.set_busy f.primary_tx f.setmask s in
      let busy = busy_after_push f i s a in
      (
        f',
        s',
        c.set_free f.primary_tx f.clearmask s',
        push-free bytes f s fits free,
        rw busy,
        rw (pop-busy f' s' busy)
            (ap (λ bs. (bs, c.set_free f.primary_tx f.clearmask s')) (take-fill bytes f)),
        rw (free_after_pop f i s' a),
      )

  -- `Push` waits exactly for a message that fits while the channel is busy.
  pub push_waits :
      (bytes : List ℕ) (f : Fifo) (s : S)
      → (push c bytes f s ≡ none) ↔ ((length bytes ≤ f.size) × (channel_free c f s ≡ false))
  unfolding push
  push_waits bytes f s = ground arith

  pub push_too_long :
      (bytes : List ℕ) (f : Fifo) (s : S) → f.size < length bytes → push c bytes f s ≡ some (f, s)
  unfolding push
  push_too_long bytes f s h = ground arith

  pub pop_free : (f : Fifo) (s : S) → channel_free c f s ≡ true → pop c f s ≡ ([], s)
  unfolding pop
  pop_free f s h = ground arith
