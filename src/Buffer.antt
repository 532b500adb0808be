-- ===== src/Buffer.antt =====
-- `CircularFIFO` of the network stack, which is another repository: the calls that this code makes of
-- it, and what they are documented to do to the bytes that are buffered.
use common_embedded_platform.Prelude.{
  ℕ, zero, suc, ◌+◌, ◌≤◌, ◌<◌, ◌≡◌, refl, Bool, true, false, List, [], ◌∷◌, ◌++◌, length, drop, leb,
  if◌then◌else◌, if-either, arith,
}

-- `contents` is what `Rewind` points to, `ReadSize` bytes of it. `Push` says whether it took the bytes.
pub record ByteFifo (Q : Type 0) : Type 0 where
  pub contents : Q → List ℕ
  pub push : List ℕ → Q → Bool × Q
  pub pop : ℕ → Q → Q
  pub reset : Q → Q

-- A FIFO of `capacity` bytes. Nothing is said of a `Pop` of more bytes than there are, but that it
-- adds none.
pub record IsFifo {Q : Type 0} (fifo : ByteFifo Q) (capacity : ℕ) : Type 0 where
  pub push_room :
      (bytes : List ℕ) (q : Q)
      → length (fifo.contents q) + length bytes ≤ capacity
      → (fifo.push bytes q).0 ≡ true
  pub push_contents :
      (bytes : List ℕ) (q : Q)
      → (fifo.push bytes q).0 ≡ true
      → fifo.contents (fifo.push bytes q).1 ≡ fifo.contents q ++ bytes
  pub push_refused :
      (bytes : List ℕ) (q : Q)
      → capacity < length (fifo.contents q) + length bytes
      → ((fifo.push bytes q).0 ≡ false) × (fifo.contents (fifo.push bytes q).1 ≡ fifo.contents q)
  pub pop_contents :
      (n : ℕ) (q : Q)
      → n ≤ length (fifo.contents q)
      → fifo.contents (fifo.pop n q) ≡ drop n (fifo.contents q)
  pub pop_shrinks :
      (n : ℕ) (q : Q) → length (fifo.contents (fifo.pop n q)) ≤ length (fifo.contents q)
  pub reset_contents : (q : Q) → fifo.contents (fifo.reset q) ≡ []

-- A list of bytes as such a FIFO.
abbrev pub list_fifo : ℕ → ByteFifo (List ℕ)
list_fifo capacity = record {
  contents = λ q. q;
  push =
      λ bytes q. if leb (length q + length bytes) capacity then (true, q ++ bytes) else (false, q);
  pop = λ n q. drop n q;
  reset = λ q. [];
}

length-drop-le : (n : ℕ) (xs : List ℕ) → length (drop n xs) ≤ length xs
length-drop-le zero xs = omega arith
length-drop-le (suc n) [] = omega arith
length-drop-le (suc n) (x ∷ xs) = omega (arith, length-drop-le n xs)

pub list_fifo-IsFifo : (capacity : ℕ) → IsFifo (list_fifo capacity) capacity
list_fifo-IsFifo capacity = record {
  push_room = λ bytes q room. ground arith;
  push_contents = λ bytes q.
      let P : Bool × List ℕ → Type 0 = λ r. r.0 ≡ true → r.1 ≡ q ++ bytes in
      if-either P (leb (length q + length bytes) capacity) (true, q ++ bytes) (false, q)
        (λ x h. refl) (λ y h. absurd (ground arith));
  push_refused = λ bytes q full. ground arith;
  pop_contents = λ n q enough. refl;
  pop_shrinks = λ n q. length-drop-le n q;
  reset_contents = λ q. refl;
}
