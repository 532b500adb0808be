-- ===== src/Fpga/Updater/Outcomes.antt =====
-- The ends of a write to the flash that is read back.
use common_embedded_platform.Prelude.{
  ℕ, ◌≡◌, Option, some, Bool, true, false, not, List, ◌∷◌, take, bytes_eq, bytes_eq_sound,
  if◌then◌else◌, arith, if-either,
}
use common_embedded_platform.Buffer.{ByteFifo}
use common_embedded_platform.Fpga.Partition.{
  write_data, read_data, FlashTrace, Flash, failed, Updater, unless_endless,
}
use common_embedded_platform.Fpga.Updater.{write_verified}

pub unless_endless-some :
    {Q : Type 0} (s r : Updater Q) (o : Option (Updater Q))
    → unless_endless s o ≡ some r
    → (s.is_endless ≡ false) × (o ≡ some r)
unless_endless-some s r o = ground arith

module _ (flash : Flash) {Q : Type 0} (fifo : ByteFifo Q) where
  abbrev pub block : ℕ → Updater Q → List ℕ
  block n s = take n (fifo.contents s.write_buffer)

  abbrev pub written : ℕ → Updater Q → FlashTrace
  written n s = write_data s.wptr (block n s) ∷ s.trace

  -- What holds of a refused write, of a read that differs and of a write that goes well holds of the
  -- result.
  pub write_verified-outcome {κ} :
      (P : Bool × Updater Q → Type κ) (n : ℕ) (s : Updater Q)
      → P (false, record s { trace = written n s; state = failed })
      → P (false, record s { trace = read_data s.wptr n ∷ written n s; state = failed })
      → (flash.writes s.trace s.wptr (block n s) ≡ true
          → flash.reads (written n s) s.wptr n ≡ block n s
          → P (
            true,
            record s {
              trace = read_data s.wptr n ∷ written n s;
              write_buffer = fifo.pop n s.write_buffer;
            },
          ))
      → P (write_verified flash fifo n s)
  unfolding write_verified
  write_verified-outcome P n s refused differs good =
      let reread = read_data s.wptr n ∷ written n s in
      let same = bytes_eq (flash.reads (written n s) s.wptr n) (block n s) in
      let no : Bool × Updater Q = (false, record s { trace = reread; state = failed }) in
      let yes : Bool × Updater Q =
        (true, record s { trace = reread; write_buffer = fifo.pop n s.write_buffer }) in
      if-either P (not (flash.writes s.trace s.wptr (block n s)))
        (false, record s { trace = written n s; state = failed }) (if not same then no else yes)
        (λ x. refused)
        (λ y.
          if-either P (not same) no yes (λ x. differs)
            (λ z.
              good (ground arith)
                (bytes_eq_sound (flash.reads (written n s) s.wptr n) (block n s) (ground arith))))
