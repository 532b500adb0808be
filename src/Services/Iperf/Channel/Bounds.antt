-- ===== src/Services/Iperf/Channel/Bounds.antt =====
-- What the parser of the parameters reads.
use common_embedded_platform.Prelude.{
  ℕ, zero, suc, ◌+◌, ◌-◌, ◌≤◌, ◌<◌, ◌≡◌, refl, sym, ap, ◌∙◌, Bool, true, false, not, List, [], ◌∷◌,
  ◌++◌, length, append-nil, Option, none, some, get_or, take, drop, length-drop, u32, ltb, ◌==◌,
  if◌then◌else◌, arith,
}
use common_embedded_platform.Buffer.{ByteFifo}
use common_embedded_platform.Services.Iperf.{Net, Session}
use common_embedded_platform.Services.Iperf.Json.{Parser, parse_config}
use common_embedded_platform.Services.Iperf.Channel.{word_of, after_parse, on_rx_param_exchange}

get_or-append : (xs ys : List ℕ) (i d : ℕ) → i < length xs → get_or (xs ++ ys) i d ≡ get_or xs i d
get_or-append [] ys i d h = absurd (omega arith)
get_or-append (x ∷ xs) ys zero d h = refl
get_or-append (x ∷ xs) ys (suc i) d h = get_or-append xs ys i d (omega arith)

take-append : (n : ℕ) (xs ys : List ℕ) → n ≤ length xs → take n (xs ++ ys) ≡ take n xs
take-append zero xs ys h = refl
take-append (suc n) [] ys h = absurd (omega arith)
take-append (suc n) (x ∷ xs) ys h = ap (λ t. x ∷ t) (take-append n xs ys (omega arith))

drop-append : (n : ℕ) (xs ys : List ℕ) → n ≤ length xs → drop n (xs ++ ys) ≡ drop n xs ++ ys
drop-append zero xs ys h = refl
drop-append (suc n) [] ys h = absurd (omega arith)
drop-append (suc n) (x ∷ xs) ys h = drop-append n xs ys (omega arith)

word_of-append : (xs ys : List ℕ) → 4 ≤ length xs → word_of (xs ++ ys) ≡ word_of xs
word_of-append xs ys h =
    let a = get_or-append xs ys 0 0 (omega (arith, h)) in
    let b = get_or-append xs ys 1 0 (omega (arith, h)) in
    let c = get_or-append xs ys 2 0 (omega (arith, h)) in
    let d = get_or-append xs ys 3 0 (omega (arith, h)) in omega (arith, a, b, c, d)

module _ {Q : Type 0} (net : Net Q) (fifo : ByteFifo Q) where
  after_parse-behind :
      (behind : List ℕ) (socket len : ℕ) (s : Session Q) (o : Option (Parser Q))
      → after_parse net fifo behind socket len s o ≡ after_parse net fifo [] socket len s o
  after_parse-behind behind socket len s none = refl
  after_parse-behind behind socket len s (some p) = refl

  -- The call, its three tests given with what it parses.
  abbrev exchanged : Session Q → Bool → Bool → Bool → Session Q → Bool × Session Q
  exchanged s short partial bad r =
      if short
      then (false, s)
      else if partial
      then (false, s)
      else if bad
      then (false, s)
      else (true, r)

  same_exchange :
      (s : Session Q) (short partial partial' bad bad' : Bool) (r r' : Session Q)
      → (short ≡ false → partial ≡ partial')
      → (short ≡ false → bad ≡ bad')
      → (short ≡ false → partial ≡ false → r ≡ r')
      → exchanged s short partial bad r ≡ exchanged s short partial' bad' r'
  same_exchange s true partial partial' bad bad' r r' p b e = refl
  same_exchange s false true partial' bad bad' r r' p b e =
      ap (λ q. exchanged s false q bad r) (p refl) ∙ settle partial' (p refl)
    where
      settle : (q : Bool) → true ≡ q → exchanged s false q bad r ≡ exchanged s false q bad' r'
      settle true h = refl
      settle false h = absurd (ground arith)
  same_exchange s false false partial' bad bad' r r' p b e =
      ap (λ q. exchanged s false q bad r) (p refl)
      ∙ ap (λ d. exchanged s false partial' d r) (b refl)
      ∙ ap (λ u. exchanged s false partial' bad' u) (e refl refl)

  -- If the length that the client declares is below 2 ^ 32 - 4, `OnRxParamExchange` depends on no byte
  -- behind those that are buffered.
  pub on_rx_param_exchange-in_bounds :
      (behind : List ℕ) (socket : ℕ) (s : Session Q)
      → word_of (fifo.contents s.connection.rx_buffer) < 4294967292
      → on_rx_param_exchange net fifo behind socket s ≡ on_rx_param_exchange net fifo [] socket s
  unfolding on_rx_param_exchange
  on_rx_param_exchange-in_bounds behind socket s fits =
      let xs = fifo.contents s.connection.rx_buffer in
      let nil : xs ++ [] ≡ xs = append-nil xs in
      let len = word_of (xs ++ behind) in
      let len' = word_of (xs ++ []) in
      let blob = λ (ys : List ℕ). drop 1 (take (word_of ys) (drop 4 ys)) in
      let same_len = λ (h : 4 ≤ length xs). word_of-append xs behind h ∙ ap word_of (sym nil) in
      same_exchange s (ltb (length xs) 6) (ltb (length xs) (u32 (4 + len)))
        (ltb (length xs) (u32 (4 + len'))) (not (get_or (drop 4 (xs ++ behind)) 0 0 == b'{'))
        (not (get_or (drop 4 (xs ++ [])) 0 0 == b'{'))
        (after_parse net fifo behind socket len s
          (parse_config net len (blob (xs ++ behind)) s.connection))
        (after_parse net fifo [] socket len' s
          (parse_config net len' (blob (xs ++ [])) s.connection))
        (λ x. ap (λ n. ltb (length xs) (u32 (4 + n))) (same_len (ground arith)))
        (λ x.
          let six : 6 ≤ length xs = ground arith in
          ap (λ ys. not (get_or ys 0 0 == b'{')) (drop-append 4 xs behind (omega (arith, six)))
          ∙ ap (λ c. not (c == b'{'))
              (get_or-append (drop 4 xs) behind 0 0 (omega (arith, six, length-drop 4 xs)))
          ∙ ap (λ ys. not (get_or (drop 4 ys) 0 0 == b'{')) (sym nil))
        (λ x y.
          let six : 6 ≤ length xs = ground arith in
          let equal = word_of-append xs behind (omega (arith, six)) in
          let whole : u32 (4 + len) ≤ length xs = ground arith in
          let room : len ≤ length xs - 4 = omega (arith, whole, equal, fits) in
          let same_blob : blob (xs ++ behind) ≡ blob (xs ++ []) =
            ap (λ ys. drop 1 (take len ys)) (drop-append 4 xs behind (omega (arith, six)))
            ∙ ap (λ ys. drop 1 ys)
                (take-append len (drop 4 xs) behind (omega (arith, room, length-drop 4 xs)))
            ∙ ap (λ n. drop 1 (take n (drop 4 xs))) equal
            ∙ ap blob (sym nil) in
          after_parse-behind behind socket len s
            (parse_config net len (blob (xs ++ behind)) s.connection)
          ∙ ap
              (λ n.
                after_parse net fifo [] socket n s
                  (parse_config net n (blob (xs ++ behind)) s.connection))
              (equal ∙ ap word_of (sym nil))
          ∙ ap (λ ys. after_parse net fifo [] socket len' s (parse_config net len' ys s.connection))
              same_blob)

  -- Six bytes with an opening brace behind a length of 2 ^ 32 - 4 or more pass the size check, which wraps
  -- around: `OnRxParamExchange` parses although the blob has not arrived.
  pub on_rx_param_exchange-wraps :
      (behind : List ℕ) (socket : ℕ) (s : Session Q)
      → 6 ≤ length (fifo.contents s.connection.rx_buffer)
      → get_or (drop 4 (fifo.contents s.connection.rx_buffer)) 0 0 ≡ b'{'
      → 4294967292 ≤ word_of (fifo.contents s.connection.rx_buffer)
      → word_of (fifo.contents s.connection.rx_buffer) < 4294967296
      → (on_rx_param_exchange net fifo behind socket s).0 ≡ true
  unfolding on_rx_param_exchange
  on_rx_param_exchange-wraps behind socket s six brace large word =
      let xs = fifo.contents s.connection.rx_buffer in
      let equal = word_of-append xs behind (omega (arith, six)) in
      let len = word_of (xs ++ behind) in
      let first : get_or (drop 4 (xs ++ behind)) 0 0 ≡ b'{' =
        ap (λ ys. get_or ys 0 0) (drop-append 4 xs behind (omega (arith, six)))
        ∙ get_or-append (drop 4 xs) behind 0 0 (omega (arith, six, length-drop 4 xs))
        ∙ brace in
      let r =
        after_parse net fifo behind socket len s
          (parse_config net len (drop 1 (take len (drop 4 (xs ++ behind)))) s.connection) in
      let wrapped : u32 (4 + len) < 4 = omega (arith, equal, large, word) in
      let short : ltb (length xs) 6 ≡ false = ground arith in
      let partial : ltb (length xs) (u32 (4 + len)) ≡ false = ground arith in
      ap
        (λ b.
          (exchanged s b (ltb (length xs) (u32 (4 + len)))
            (not (get_or (drop 4 (xs ++ behind)) 0 0 == b'{')) r).0)
        short
      ∙ ap (λ b. (exchanged s false b (not (get_or (drop 4 (xs ++ behind)) 0 0 == b'{')) r).0)
          partial
      ∙ ap (λ c. (exchanged s false false (not (c == b'{')) r).0) first
