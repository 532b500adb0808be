-- ===== src/Services/Iperf/Json.antt =====
-- The parser of the parameters that a client sends, `"name":value` pairs.
use common_embedded_platform.Prelude.{
  ℕ, Bool, true, false, ◌||◌, ◌&&◌, Option, none, some, List, [], ◌∷◌, ◌++◌, length, bytes_eq,
  c_string, leb, ◌==◌, if◌then◌else◌,
}
use common_embedded_platform.Services.Iperf.{Connection, mode_tcp, mode_udp, Net}

pub data JsonState : Type 0 where
  open_quote in_name colon in_value : JsonState

-- The variables of the loop. `finished` says that a closing brace was met, which sets the index to the end.
pub record Parser (Q : Type 0) : Type 0 where
  pub json_state : JsonState
  pub name : List ℕ
  pub value : List ℕ
  pub finished : Bool
  pub config : Connection Q

-- The strings that field names and values are compared with.
abbrev name_udp : List ℕ
name_udp = b'u' ∷ b'd' ∷ b'p' ∷ []

abbrev name_reverse : List ℕ
name_reverse = b'r' ∷ b'e' ∷ b'v' ∷ b'e' ∷ b'r' ∷ b's' ∷ b'e' ∷ []

abbrev name_time : List ℕ
name_time = b't' ∷ b'i' ∷ b'm' ∷ b'e' ∷ []

abbrev name_len : List ℕ
name_len = b'l' ∷ b'e' ∷ b'n' ∷ []

abbrev name_bandwidth : List ℕ
name_bandwidth = b'b' ∷ b'a' ∷ b'n' ∷ b'd' ∷ b'w' ∷ b'i' ∷ b'd' ∷ b't' ∷ b'h' ∷ []

abbrev text_true : List ℕ
text_true = b't' ∷ b'r' ∷ b'u' ∷ b'e' ∷ []

abbrev text_false : List ℕ
text_false = b'f' ∷ b'a' ∷ b'l' ∷ b's' ∷ b'e' ∷ []

module _ {Q : Type 0} (net : Net Q) where
  -- `OnJsonConfigField`; "omit" and "parallel" only log.
  unfoldable pub on_json_config_field : List ℕ → List ℕ → Connection Q → Connection Q
  on_json_config_field name value c =
      if bytes_eq name name_udp
      then (if bytes_eq value text_true
          then record c { mode = mode_udp }
          else if bytes_eq value text_false
          then record c { mode = mode_tcp }
          else c)
      else if bytes_eq name name_reverse
      then (if bytes_eq value text_true
          then record c { reverse_mode = true }
          else if bytes_eq value text_false
          then record c { reverse_mode = false }
          else c)
      else if bytes_eq name name_time
      then record c { time = net.atoi value }
      else if bytes_eq name name_len
      then record c { len = net.atoi value }
      else if bytes_eq name name_bandwidth
      then record c { bandwidth = net.atoi value }
      else c

  -- The loop body; `none` where the connection is dropped.
  unfoldable pub json_step : ℕ → JsonState → Parser Q → Option (Parser Q)
  json_step c open_quote p =
      if c == b'"' then some (record p { json_state = in_name; name = [] }) else none
  json_step c in_name p =
      if leb 32 (length p.name)
      then none
      else if c == b'"'
      then some (record p { json_state = colon })
      else some (record p { name = p.name ++ (c ∷ []) })
  json_step c colon p =
      if c == b':' then some (record p { json_state = in_value; value = [] }) else none
  json_step c in_value p =
      if leb 32 (length p.value)
      then none
      else if (c == b',') || (c == b'}')
      then some (record p {
        json_state = open_quote;
        finished = c == b'}';
        config = on_json_config_field (c_string p.name) (c_string p.value) p.config;
      })
      else some (record p { value = p.value ++ (c ∷ []) })

  abbrev pub json_next : ℕ → Option (Parser Q) → Option (Parser Q)
  json_next c none = none
  json_next c (some p) =
      let next = json_step c p.json_state p in if p.finished then some p else next

  unfoldable pub json_run : List ℕ → Option (Parser Q) → Option (Parser Q)
  json_run [] o = o
  json_run (c ∷ cs) o = json_run cs (json_next c o)

  -- At the closing brace `i = len; i++` ends the loop, unless `len` is 2 ^ 32 - 1: then `i` comes round to 0,
  -- and the loop goes on at the brace that opens the blob.
  abbrev pub ended_at : ℕ → Option (Parser Q) → Option (Parser Q)
  ended_at len none = none
  ended_at len (some p) =
      let again = json_step b'{' p.json_state p in
      if p.finished && (len == 4294967295) then again else some p

  -- `bytes` are those of the blob behind its opening brace.
  abbrev pub parse_config : ℕ → List ℕ → Connection Q → Option (Parser Q)
  parse_config len bytes c = ended_at len (
      json_run bytes (
        some (record {
          json_state = open_quote;
          name = [];
          value = [];
          finished = false;
          config = c;
        })))
