-- ===== src/Tests/Routing.antt =====
-- The route table, the tree and the way of an event.
use pwrapi.Prelude.{◌+◌, ◌^◌, ◌<◌, ◌≡◌, refl, none, some, List, [], ◌∷◌, length, get_elem?, arith}
use pwrapi.Prelude.Map.{nat_eq, text_eq}
use pwrapi.Chars.{to_int}
use pwrapi.Chars.Fields.{value}
use pwrapi.Router.Table.{init_route_table}
use pwrapi.Router.Table.Lines.{
  Entry, line_of, IsEntry, file_of, IsFile, table_of, init_route_table-file_of,
}
use pwrapi.Router.Tree.{Link, no_link, init_tree_info}
use pwrapi.Router.Tree.Info.{
  Description, text_of, number_of, link_of, IsDescription, init_tree_info-order,
}

-- `n1:2:31`.
abbrev entry : Entry
entry = record { name = b'n' ∷ b'1' ∷ []; router = b'2' ∷ []; server = b'3' ∷ b'1' ∷ [] }

entry-IsEntry : IsEntry entry
unfolding line_of
entry-IsEntry = record {
  name = ground arith;
  router = (refl, tt);
  server = (refl, (refl, tt));
  some_router = omega arith;
  some_server = omega arith;
  short = omega arith;
}

entry-IsFile : IsFile (entry ∷ [])
unfolding IsFile line_of
entry-IsFile = ((entry-IsEntry, ground arith), tt)

init_route_table-file_of_example :
    init_route_table (file_of (entry ∷ []) (b'x' ∷ [])) ≡ some (table_of [] (entry ∷ []))
init_route_table-file_of_example =
    init_route_table-file_of (entry ∷ []) (b'x' ∷ []) entry-IsFile (ground arith)

-- `1:p:h:q:0:255`.
abbrev description : Description
description = record {
  number = b'1' ∷ [];
  my_port = b'p' ∷ [];
  host = b'h' ∷ [];
  port = b'q' ∷ [];
  start = b'0' ∷ [];
  stop = b'2' ∷ b'5' ∷ b'5' ∷ [];
}

description-IsDescription : IsDescription description
unfolding value to_int
description-IsDescription = record {
  number = (refl, tt);
  some_number = omega arith;
  down = omega arith;
  my_port = ground arith;
  host = ground arith;
  port = ground arith;
  start = ground arith;
  short = omega arith;
}

small_number : number_of description + 1 < 2 ^ 32
unfolding value to_int
small_number = omega arith

init_tree_info-order_example :
    (out : List Link) × (init_tree_info (no_link ∷ no_link ∷ no_link ∷ []) (text_of description)
      ≡ some out)
    × (get_elem? out (number_of description) ≡ some (link_of description))
    × (2 < number_of description
        → 2 < length (no_link ∷ no_link ∷ no_link ∷ [])
        → get_elem? out 2 ≡ get_elem? (no_link ∷ no_link ∷ no_link ∷ []) 2)
    × (number_of description < 2 → get_elem? out 2 ≡ none)
init_tree_info-order_example =
    init_tree_info-order (no_link ∷ no_link ∷ no_link ∷ []) description 2 description-IsDescription
      small_number
