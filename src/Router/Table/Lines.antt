-- ===== src/Router/Table/Lines.antt =====
-- A file of well-formed lines gives the table of its entries; a line with no end is not read.
use pwrapi.Prelude.{
  ℕ, ◌+◌, ◌-◌, ◌^◌, ◌<◌, ◌≡◌, refl, sym, ap, ◌∙◌, some, List, [], ◌∷◌, ◌++◌, append_assoc,
  append-nil, length, length-append, take, All, arith,
}
use pwrapi.Prelude.Map.{text_eq, insert}
use pwrapi.Chars.{to_int, Text, npos, next, find_first_of, find_last_of, substr}
use pwrapi.Chars.Fields.{
  Without, Digits, Digits-Without, value, find_first_from-append, find_last_from-append,
  substr-append, take_all, take-append, atoi-take, atoi-digits,
}
use pwrapi.Router.Ids.{app_id}
use pwrapi.Router.Table.{
  RouteTable, before, cut_line, parse_line, lines_from, add_routes, init_route_table,
}

-- An entry of a route file, with its numbers as they are written.
pub record Entry : Type 0 where
  pub name : Text
  pub router : Text
  pub server : Text

unfoldable pub line_of : Entry → Text
line_of e = e.name ++ (b':' ∷ (e.router ++ (b':' ∷ e.server)))

abbrev pub entry_app : Entry → ℕ
entry_app e = app_id (to_int (value 0 e.router)) (to_int (value 0 e.server))

pub record IsEntry (e : Entry) : Type 0 where
  pub name : Without b':' e.name
  pub router : Digits e.router
  pub server : Digits e.server
  pub some_router : 0 < length e.router
  pub some_server : 0 < length e.server
  pub short : length (line_of e) < 2 ^ 64 - 1

module _ (e : Entry) (is : IsEntry e) where
  -- Where the two separators stand.
  first_separator : find_first_of (line_of e) b':' ≡ length e.name
  unfolding line_of
  first_separator = find_first_from-append 0 b':' e.name _ is.name ∙ omega arith

  line_split : line_of e ≡ (e.name ++ b':' ∷ e.router) ++ b':' ∷ e.server
  unfolding line_of
  line_split = sym (append_assoc e.name (b':' ∷ e.router) (b':' ∷ e.server))

  last_separator : find_last_of (line_of e) b':' ≡ length e.name + 1 + length e.router
  last_separator =
      ap (λ l. find_last_of l b':') line_split
      ∙ find_last_from-append 0 npos b':' (e.name ++ b':' ∷ e.router) e.server
          (Digits-Without e.server is.server)
      ∙ omega (arith, length-append e.name (b':' ∷ e.router))

  length_line : length (line_of e) ≡ length e.name + 1 + length e.router + 1 + length e.server
  length_line =
      ap length line_split
      ∙ omega (
        arith,
        length-append (e.name ++ b':' ∷ e.router) (b':' ∷ e.server),
        length-append e.name (b':' ∷ e.router),
      )

  router_part :
      substr (line_of e) (next (length e.name)) (before (length e.name + 1 + length e.router))
      ≡ some (take (length e.name + length e.router) (e.router ++ b':' ∷ e.server))
  unfolding line_of
  router_part =
      ap (λ l. substr l (next (length e.name)) (before (length e.name + 1 + length e.router)))
        (sym (append_assoc e.name (b':' ∷ []) (e.router ++ b':' ∷ e.server)))
      ∙ substr-append (e.name ++ b':' ∷ []) (e.router ++ b':' ∷ e.server) (next (length e.name)) _
          (omega (arith, length_line, is.short, length-append e.name (b':' ∷ [])))
      ∙ ap (λ k. some (take k (e.router ++ b':' ∷ e.server))) (omega (arith, length_line, is.short))

  server_part : substr (line_of e) (next (length e.name + 1 + length e.router)) npos ≡ some e.server
  server_part =
      ap (λ l. substr l (next (length e.name + 1 + length e.router)) npos)
        (line_split ∙ sym (append_assoc (e.name ++ b':' ∷ e.router) (b':' ∷ []) e.server))
      ∙ substr-append ((e.name ++ b':' ∷ e.router) ++ b':' ∷ []) e.server
          (next (length e.name + 1 + length e.router)) npos
          (omega (
            arith,
            length_line,
            is.short,
            length-append e.name (b':' ∷ e.router),
            length-append (e.name ++ b':' ∷ e.router) (b':' ∷ []),
          ))
      ∙ ap some (take_all npos e.server (omega (arith, length_line, is.short)))

  name_part : substr (line_of e) 0 (length e.name) ≡ some e.name
  unfolding line_of
  name_part = substr-append [] (line_of e) 0 (length e.name) refl ∙ ap some (take-append e.name _)

  -- A line whose name has no `:`, whose two numbers are digits, at least one, and which is shorter
  -- than 2 ^ 64 - 1, is read as its name and the `AppID` of its numbers.
  pub parse_line-line_of : parse_line (line_of e) ≡ some (e.name, entry_app e)
  unfolding parse_line cut_line
  parse_line-line_of =
      rw (first_separator, last_separator, router_part, server_part, name_part)
        (ap (λ id. some (e.name, id))
          (rw
            (
              atoi-take (length e.name + length e.router) b':' e.router e.server is.router
                  is.some_router refl (omega arith),
              atoi-digits e.server is.server is.some_server,
            )
            refl))

-- A line and its end are taken off the front of a file.
lines_from-line :
    (before_it line rest : Text)
    → Without 10 line
    → lines_from before_it (line ++ 10 ∷ rest) ≡ (before_it ++ line) ∷ lines_from [] rest
unfolding lines_from
lines_from-line acc [] rest h = ground (arith, append-nil acc)
lines_from-line acc (c ∷ line) rest h =
    ground (arith, lines_from-line (acc ++ c ∷ []) line rest h.1, append_assoc acc (c ∷ []) line)

lines_from-cut : (acc line : Text) → Without 10 line → lines_from acc line ≡ []
unfolding lines_from
lines_from-cut acc [] h = refl
lines_from-cut acc (c ∷ line) h = ground (arith, lines_from-cut (acc ++ c ∷ []) line h.1)

-- A file of entries, each line ended, and a last line that is not.
pub file_of : List Entry → Text → Text
file_of [] last = last
file_of (e ∷ es) last = line_of e ++ 10 ∷ file_of es last

unfoldable pub IsFile : List Entry → Type 0
IsFile es = All (λ e. IsEntry e × Without 10 (line_of e)) es

-- The table with the entries put into it in order.
pub table_of : RouteTable → List Entry → RouteTable
table_of table [] = table
table_of table (e ∷ es) = table_of (insert e.name (entry_app e) table) es

add_routes-file_of :
    (table : RouteTable) (es : List Entry) (last : Text)
    → IsFile es
    → Without 10 last
    → add_routes table (lines_from [] (file_of es last)) ≡ some (table_of table es)
unfolding add_routes file_of table_of IsFile
add_routes-file_of table [] last is h = rw (lines_from-cut [] last h) refl
add_routes-file_of table (e ∷ es) last (is, iss) h =
    rw (lines_from-line [] (line_of e) (file_of es last) is.1, parse_line-line_of e is.0)
      (add_routes-file_of (insert e.name (entry_app e) table) es last iss h)

-- From a file of well-formed entries, each in a line with its end, and a last line with no end, the
-- table holds those entries, put in in order, and nothing of the last line.
pub init_route_table-file_of :
    (es : List Entry) (last : Text)
    → IsFile es
    → Without 10 last
    → init_route_table (file_of es last) ≡ some (table_of [] es)
unfolding init_route_table
init_route_table-file_of = add_routes-file_of []
