-- ===== src/Channel/Config.antt =====
-- src/pwr/tcpEventChannel.cc: the configuration of a channel, a text of keys and values.
pub mod Pairs
use pwrapi.Prelude.{
  ℕ, zero, suc, ◌%◌, ◌^◌, Option, none, some, Bool, List, [], ◌∷◌, ◌==◌, length, if◌then◌else◌,
  ◌>>=◌,
}
use pwrapi.Prelude.Map.{Eq, text_eq, lookup, insert}
use pwrapi.Chars.{Text, codes, npos, next, find_first_of, find_first_not_from, substr, atoi}

-- What is left after a value that ends at a position.
unfoldable pub after_value : ℕ → Text → Option Text
after_value pos s = if pos == npos then some [] else substr s (next pos) npos

-- One round of the loop of `split`: the key, the value and what is left.
unfoldable pub split_one : Text → Option (Text × Text × Text)
split_one s = do
  s₁ ← substr s (find_first_not_from 0 b' ' s) npos
  key ← substr s₁ 0 (find_first_of s₁ b'=')
  s₂ ← substr s₁ (next (find_first_of s₁ b'=')) npos
  value ← substr s₂ 0 (find_first_of s₂ b' ')
  s₃ ← after_value (find_first_of s₂ b' ') s₂
  some (key, value, s₃)

-- The loop of `split`. `none` is a `substr` that throws, or a text of more rounds than the fuel.
unfoldable pub split_from : ℕ → Text → List (Text × Text) → Option (List (Text × Text))
split_from fuel [] m = some m
split_from zero (c ∷ s) m = none
split_from (suc fuel) (c ∷ s) m = do
  (key, value, rest) ← split_one (c ∷ s)
  split_from fuel rest (insert key value m)

-- `split`. A round takes at least the space behind a value, or is the last.
unfoldable pub split : Text → Option (List (Text × Text))
split s = split_from (length s) s []

-- What the first constructor of `TcpEventChannel` does: it listens on a port, or keeps the host and
-- the port of a server for later. A key that is missing gives the empty text.
pub data Opening : Type 0 where
  listens : ℕ → Opening
  connects : Text → Text → Opening

unfoldable pub text_at : Option Text → Text
text_at none = []
text_at (some t) = t

-- `unsigned short port = atoi( .. )`
unfoldable pub port_of : Text → ℕ
port_of t = atoi t % 2 ^ 16

unfoldable pub opening_at : Option Text → List (Text × Text) → Opening
opening_at none m = listens (port_of (text_at (lookup (codes "listenPort") m)))
opening_at (some server) m = connects server (text_at (lookup (codes "serverPort") m))

unfoldable pub opening : Text → Option Opening
opening config =
    split config >>= (λ (m : List (Text × Text)). some (opening_at (lookup (codes "server") m) m))
