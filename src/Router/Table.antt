-- ===== src/Router/Table.antt =====
-- `Router::initRouteTable` and `Router::findRoute`: a file of lines `name:router:server`.
pub mod Lines
use pwrapi.Prelude.{
  ℕ, ◌+◌, ◌-◌, ◌%◌, ◌^◌, Option, none, some, List, [], ◌∷◌, ◌++◌, ◌==◌, if◌then◌else◌, ◌>>=◌,
}
use pwrapi.Prelude.Map.{Eq, text_eq, lookup, insert}
use pwrapi.Chars.{Text, npos, next, find_first_of, find_last_of, substr, atoi}
use pwrapi.Router.Ids.{app_id, no_app}

abbrev pub RouteTable : Type 0
RouteTable = List (Text × ℕ)

-- `pos2-1`, in `size_t`.
abbrev before : ℕ → ℕ
before pos = (pos + (2 ^ 64 - 1)) % 2 ^ 64

-- The parts of a line, given the places of its first and last `:`.
cut_line : Text → ℕ → ℕ → Option (Text × ℕ)
cut_line line pos1 pos2 = do
  rtr ← substr line (next pos1) (before pos2)
  server ← substr line (next pos2) npos
  name ← substr line 0 pos1
  some (name, app_id (atoi rtr) (atoi server))

-- The name of a line and its `AppID`; `none` is the exception of a `substr`.
unfoldable pub parse_line : Text → Option (Text × ℕ)
unfolding cut_line
parse_line line = cut_line line (find_first_of line b':') (find_last_of line b':')

-- What `while( ! std::getline( fs, tmpStr, '\n' ).eof() )` hands to its body: a line that the end
-- of the file cuts off sets `eof`, and is not handed on.
unfoldable pub lines_from : Text → Text → List Text
lines_from line [] = []
lines_from line (c ∷ s) =
    let done = line ∷ lines_from [] s in
    let more = lines_from (line ++ c ∷ []) s in if c == 10 then done else more

unfoldable pub add_routes : RouteTable → List Text → Option RouteTable
add_routes table [] = some table
add_routes table (line ∷ rest) = do
  (name, id) ← parse_line line
  add_routes (insert name id table) rest

unfoldable pub init_route_table : Text → Option RouteTable
init_route_table file = add_routes [] (lines_from [] file)

-- `Router::findRoute`.
abbrev pub route_or_none : Option ℕ → ℕ
route_or_none none = no_app
route_or_none (some app) = app

unfoldable pub find_route : RouteTable → Text → ℕ
find_route table id = route_or_none (lookup id table)
