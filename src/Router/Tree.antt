-- ===== src/Router/Tree.antt =====
-- tools/pwrdaemon/router/treeCore.cc: the links of a router in a tree, one up and the others down;
-- and `initTreeInfo` of tools/pwrdaemon/router/router.cc, which reads a link's description.
pub mod Route
pub mod Info
use pwrapi.Prelude.{
  ℕ, zero, suc, ◌+◌, ◌%◌, ◌^◌, Option, none, some, Bool, true, false, ◌&&◌, List, [], ◌∷◌, leb, ltb,
  if◌then◌else◌, length, take, replicate, set, ◌++◌, ◌-◌, ◌>>=◌,
}
use pwrapi.Chars.{Text, npos, next, find_first_of, substr, atoi}

-- `TreeCore::ABC`: the channels, which may be NULL, and the routers below the link.
pub record RtrLink : Type 0 where
  pub send : Option ℕ
  pub recv : Option ℕ
  pub nid_start : ℕ
  pub nid_stop : ℕ

-- Whether a router is below the link.
unfoldable pub covers : RtrLink → ℕ → Bool
covers l id = leb l.nid_start id && leb id l.nid_stop

unfoldable pub down_channel : List RtrLink → ℕ → Option ℕ → Option ℕ
down_channel [] id up = up
down_channel (l ∷ ls) id up = if covers l id then l.send else down_channel ls id up

-- `TreeCore::getChannel`.
unfoldable pub get_channel : List RtrLink → ℕ → Option ℕ
get_channel [] id = none
get_channel (up ∷ down) id = down_channel down id up.send

-- `struct Link`.
pub record Link : Type 0 where
  pub my_listen_port : Text
  pub other_host : Text
  pub other_host_listen_port : Text
  pub nid_start : Text
  pub nid_stop : Text

abbrev pub no_link : Link
no_link = record {
  my_listen_port = [];
  other_host = [];
  other_host_listen_port = [];
  nid_start = [];
  nid_stop = [];
}

-- `links.resize( n )`.
unfoldable pub resize : ℕ → List Link → List Link
resize n links = take n links ++ replicate (n - length links) no_link

-- `pos = info.find_first_of(':')`, `info.substr( 0, pos )` and `info.substr( pos + 1 )`.
unfoldable pub next_field : Text → Option (ℕ × Text × Text)
next_field info =
    let pos = find_first_of info b':' in
    do field ← substr info 0 pos; rest ← substr info (next pos) npos; some (pos, field, rest)

-- The rest of the description of a link down: the last field is cut with the position of the one
-- before it.
unfoldable pub down_link : Text → Text → Text → Option Link
down_link my_port host info₂ = do
  (pos₃, port, info₃) ← next_field info₂
  (pos₄, start, info₄) ← next_field info₃
  stop ← substr info₄ 0 (next pos₄)
  some (record {
    my_listen_port = my_port;
    other_host = host;
    other_host_listen_port = port;
    nid_start = start;
    nid_stop = stop;
  })

-- The rest of the description of the link up, cut with the position of the host.
unfoldable pub up_link : Text → Text → ℕ → Text → Option Link
up_link my_port host pos info₂ = do
  port ← substr info₂ 0 (next pos)
  some (record no_link {
    my_listen_port = my_port;
    other_host = host;
    other_host_listen_port = port;
  })

unfoldable pub link_in : ℕ → Text → Option Link
link_in link info = do
  (pos₁, my_port, info₁) ← next_field info
  (pos₂, host, info₂) ← next_field info₁
  if ltb 0 link then down_link my_port host info₂ else up_link my_port host pos₂ info₂

-- The writes to `links[link]`: behind the end of the list nothing is known of them.
unfoldable pub put_link : ℕ → Link → List Link → Option (List Link)
put_link link new links = if ltb link (length links) then some (set links link new) else none

-- `initTreeInfo`. The number of a link is an `unsigned`, and `link + 1` wraps: the last number leaves
-- no link to write to.
unfoldable pub init_tree_info : List Link → Text → Option (List Link)
init_tree_info links info = do
  (pos, number, rest) ← next_field info
  let link = atoi number
  new ← link_in link rest
  put_link link new (resize ((link + 1) % 2 ^ 32) links)
