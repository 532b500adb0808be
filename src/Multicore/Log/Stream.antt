-- ===== src/Multicore/Log/Stream.antt =====
-- What a core has printed is what it has pushed and what is still in its buffer.
use common_embedded_platform.Prelude.{
  ℕ, zero, suc, ◌+◌, ◌≤◌, ◌<◌, ◌≡◌, ◌≢◌, refl, sym, ap, ◌∙◌, true, List, [], ◌∷◌, ◌++◌, All, arith,
  length, take, set, get_elem?, sub32, leb, ltb, ◌==◌, ◌&&◌, not, if◌then◌else◌, Bool-cases,
  Option-cases, inl, inr, append_assoc, append-nil, take-set, take-suc, length-set,
  get_elem?-set_self, get_elem?-set_ne, All-append,
}
use native.Mathlib.Numerals.{add-one}
use common_embedded_platform.Multicore.Log.{CoreLog, flush, print_char, print_binary}

abbrev pub concat : List (List ℕ) → List ℕ
concat [] = []
concat (m ∷ ms) = m ++ concat ms

concat-snoc : (ms : List (List ℕ)) (m : List ℕ) → concat (ms ++ (m ∷ [])) ≡ concat ms ++ m
concat-snoc [] m = append-nil m
concat-snoc (x ∷ ms) m = ap (λ t. x ++ t) (concat-snoc ms m) ∙ sym (append_assoc x (concat ms) m)

-- All output of the core, pushed or not.
abbrev pub stream : CoreLog → List ℕ
stream c = concat c.pushed ++ take c.write_pointer c.tx_buffer

length-take-le : (n : ℕ) (xs : List ℕ) → length (take n xs) ≤ n
length-take-le zero xs = omega arith
length-take-le (suc n) [] = omega arith
length-take-le (suc n) (x ∷ xs) = omega (arith, length-take-le n xs)

module _ (size : ℕ) where
  -- Between two calls there is room for one more character, and each message is within the buffer size.
  pub record IsValid (c : CoreLog) : Type 0 where
    pub room : length c.tx_buffer ≡ size
    pub below : c.write_pointer < size
    pub small : All (λ m. length m ≤ size) c.pushed

flush-stream :
    (fifo : ℕ) (c : CoreLog)
    → c.is_connected ≡ true
    → c.write_pointer ≤ fifo
    → stream (flush fifo c) ≡ stream c
unfolding flush
flush-stream fifo c on fits = elim (Bool-cases (c.write_pointer == 0)) [
  | inl empty ↦ let z : c.write_pointer ≡ 0 = ground arith in simp (on, empty) (rw z)
  | inr some_left ↦
      let small : leb c.write_pointer fifo ≡ true = ground arith in
      simp (on, some_left, small)
        (append-nil _ ∙ concat-snoc c.pushed (take c.write_pointer c.tx_buffer))
]

-- `m_txBuffers[nchan][wptr] = ch; wptr++;`
abbrev put : ℕ → CoreLog → CoreLog
put ch c = record c {
  tx_buffer = set c.tx_buffer c.write_pointer ch;
  write_pointer = c.write_pointer + 1;
}

put-stream :
    (ch : ℕ) (c : CoreLog)
    → c.write_pointer < length c.tx_buffer
    → stream (put ch c) ≡ stream c ++ (ch ∷ [])
put-stream ch c lt =
    rw
      (
        add-one,
        take-suc (set c.tx_buffer c.write_pointer ch) c.write_pointer ch
            (get_elem?-set_self c.tx_buffer c.write_pointer ch lt),
        take-set c.tx_buffer c.write_pointer ch,
      )
      (sym (append_assoc (concat c.pushed) (take c.write_pointer c.tx_buffer) (ch ∷ [])))

connected-flush : (fifo : ℕ) (c : CoreLog) → (flush fifo c).is_connected ≡ c.is_connected
unfolding flush
connected-flush fifo c = refl

module _ (size fifo : ℕ) where
  flush-IsValid :
      (c : CoreLog)
      → length c.tx_buffer ≡ size
      → c.write_pointer ≤ size
      → 0 < size
      → All (λ m. length m ≤ size) c.pushed
      → IsValid size (flush fifo c)
  unfolding flush
  flush-IsValid c room le pos small = record {
    room = room;
    below = pos;
    small =
        elim (Bool-cases
          (c.is_connected && not (c.write_pointer == 0) && leb c.write_pointer fifo)) [
            | inl pushes ↦ rw pushes (
                All-append (λ m. length m ≤ size) c.pushed (take c.write_pointer c.tx_buffer ∷ [])
                  small (omega (arith, length-take-le c.write_pointer c.tx_buffer), tt))
            | inr keeps ↦ rw keeps small
          ];
  }

  -- The first test of `PrintBinary`: a full buffer is flushed.
  abbrev spill : CoreLog → CoreLog
  spill c = if c.write_pointer == size then flush fifo c else c

  spill-IsValid :
      (c : CoreLog)
      → length c.tx_buffer ≡ size
      → c.write_pointer ≤ size
      → 0 < size
      → All (λ m. length m ≤ size) c.pushed
      → IsValid size (spill c)
  spill-IsValid c room le pos small = elim (Bool-cases (c.write_pointer == size)) [
    | inl full ↦ rw full (flush-IsValid c room le pos small)
    | inr more ↦ rw more (record { room = room; below = ground arith; small = small })
  ]

  spill-stream :
      (c : CoreLog) → c.is_connected ≡ true → c.write_pointer ≤ fifo → stream (spill c) ≡ stream c
  spill-stream c on fits = elim (Bool-cases (c.write_pointer == size)) [
    | inl full ↦ rw full (flush-stream fifo c on fits)
    | inr more ↦ rw more refl
  ]

  connected-spill : (c : CoreLog) → (spill c).is_connected ≡ c.is_connected
  connected-spill c = elim (Bool-cases (c.write_pointer == size)) [
    | inl full ↦ rw full (connected-flush fifo c)
    | inr more ↦ rw more refl
  ]

  -- `PrintBinary` keeps the write pointer inside the buffer and every message within the buffer size,
  -- connected or not.
  pub print_char-IsValid :
      (ch : ℕ) (c : CoreLog) → IsValid size c → IsValid size (print_char size fifo ch c)
  unfolding print_char
  print_char-IsValid ch c v =
      let c2 = spill (put ch c) in
      let v2 : IsValid size c2 =
        spill-IsValid (put ch c) (length-set c.tx_buffer c.write_pointer ch ∙ v.room)
          (omega (arith, v.below)) (omega (arith, v.below)) v.small in
      elim (Bool-cases ((ch == b'\n') && ltb (sub32 size 128) c2.write_pointer)) [
        | inl newline ↦
            rw newline (
              flush-IsValid c2 v2.room (omega (arith, v2.below)) (omega (arith, v2.below)) v2.small)
        | inr other ↦ rw other v2
      ]

  -- On a core with a channel whose FIFO takes messages as long as the buffer, and with room in the buffer,
  -- no character is lost, repeated or moved: `PrintBinary` adds its character at the end of what the FIFO
  -- took and what is still buffered, whether or not it flushes.
  pub print_char-stream :
      (ch : ℕ) (c : CoreLog)
      → IsValid size c
      → c.is_connected ≡ true
      → size ≤ fifo
      → stream (print_char size fifo ch c) ≡ stream c ++ (ch ∷ [])
  unfolding print_char
  print_char-stream ch c v on fits =
      let c2 = spill (put ch c) in
      let e : stream c2 ≡ stream c ++ (ch ∷ []) =
        spill-stream (put ch c) on (omega (arith, v.below, fits))
        ∙ put-stream ch c (omega (arith, v.room, v.below)) in
      elim (Bool-cases ((ch == b'\n') && ltb (sub32 size 128) c2.write_pointer)) [
        | inl newline ↦ rw newline (
            flush-stream fifo c2 (connected-spill (put ch c) ∙ on) (
              let v2 =
                spill-IsValid (put ch c) (length-set c.tx_buffer c.write_pointer ch ∙ v.room)
                  (omega (arith, v.below)) (omega (arith, v.below)) v.small in
              omega (arith, v2.below, fits))
            ∙ e)
        | inr other ↦ rw other e
      ]

  -- The output of one core leaves the buffers of the other cores alone.
  pub print_binary_other :
      (core i ch : ℕ) (cores : List CoreLog)
      → core ≢ i
      → get_elem? (print_binary size fifo core ch cores) i ≡ get_elem? cores i
  unfolding print_binary
  print_binary_other core i ch cores ne = elim (Option-cases (get_elem? cores core)) [
    | inl e ↦ rw (e, print_binary)
    | inr (c, e) ↦
        rw (e, print_binary) (get_elem?-set_ne cores core i (print_char size fifo ch c) ne)
  ]
