-- ===== src/Supervisor/Since.antt =====
-- Traces that come after others: nothing that was done to the board is undone.
use common_embedded_platform.Prelude.{◌≤◌, ◌∷◌, length, arith}
use common_embedded_platform.Supervisor.Board.{Event, Trace}

-- The second trace is the first one with events that came after it.
pub data Since (t : Trace) : Trace → Type 0 where
  now : Since t t
  did : {u : Trace} (e : Event) → Since t u → Since t (e ∷ u)

pub Since-trans : {t u v : Trace} → Since t u → Since u v → Since t v
Since-trans h now = h
Since-trans h (did e k) = did e (Since-trans h k)

pub length-Since : {t u : Trace} → Since t u → length t ≤ length u
length-Since now = omega arith
length-Since (did e k) = omega (arith, length-Since k)
