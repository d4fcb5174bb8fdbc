-- ===== src/Router/Core.antt =====
-- tools/pwrdaemon/router/treeCore.cc and torusCore.cc: the channels that a router opens to its
-- neighbours when it starts; and `Router::Router` of tools/pwrdaemon/router/router.cc, which opens
-- those for clients and servers and makes the core.
pub mod Opened
pub mod Links
pub mod Start
use pwrapi.Prelude.{ℕ, suc, Option, none, some, List, [], ◌∷◌, ◌++◌, if◌then◌else◌, ltb, ◌>>=◌}
use pwrapi.Prelude.Map.{nat_eq, insert}
use pwrapi.Chars.{Text, codes, atoi}
use pwrapi.Channel.Config.{Opening, opening}
use pwrapi.Router.Select.{
  Side, client_side, server_side, router_side, Watch, accepts, link, add_channel,
}
use pwrapi.Router.Tree.{RtrLink, Link}

-- The channels that exist, by their address, and those that the select watches.
pub record Building : Type 0 where
  pub channels : List (ℕ × Opening)
  pub chan_map : List (ℕ × Watch)
  pub next_channel : ℕ

-- `getEventChannel( "TCP", .. )`
unfoldable pub get_event_channel : Text → Building → Option (ℕ × Building)
get_event_channel config b = do
  o ← opening config
  some (
    b.next_channel,
    record b { channels = insert b.next_channel o b.channels; next_channel = suc b.next_channel },
  )

-- A channel is opened and given to the select.
unfoldable pub watch_channel : Text → Watch → Building → Option (ℕ × Building)
watch_channel config w b = do
  (ec, b') ← get_event_channel config b
  m ← add_channel ec w b'.chan_map
  some (ec, record b' { chan_map = m })

abbrev pub server_config : Text → Text → Text
server_config host port = codes "server=" ++ (host ++ (codes " serverPort=" ++ port))

abbrev pub listen_config : Text → Text
listen_config port = codes "listenPort=" ++ port

-- The two channels of a link: one to the neighbour, and one that the neighbour connects to.
unfoldable pub open_pair : Text → Text → Text → Building → Option (ℕ × ℕ × Building)
open_pair host port mine b = do
  (send, b₁) ← watch_channel (server_config host port) link b
  (recv, b₂) ← watch_channel (listen_config mine) (accepts router_side) b₁
  some (send, recv, b₂)

-- `ABC()`.
abbrev pub unopened : RtrLink
unopened = record { send = none; recv = none; nid_start = 0; nid_stop = 0 }

-- The routers below a link; those of the link up are not set.
unfoldable pub below : ℕ → Text → ℕ
below i nid = if ltb 0 i then atoi nid else 0

unfoldable pub open_link : ℕ → Link → Building → Option (RtrLink × Building)
open_link i l b = do
  (send, recv, b') ← open_pair l.other_host l.other_host_listen_port l.my_listen_port b
  some (
    record {
      send = some send;
      recv = some recv;
      nid_start = below i l.nid_start;
      nid_stop = below i l.nid_stop;
    },
    b',
  )

-- One round of the loop of `TreeCore`; a link without a port of its own is left.
unfoldable pub open_at : ℕ → Link → Text → Building → Option (RtrLink × Building)
open_at i l [] b = some (unopened, b)
open_at i l (c ∷ port) b = open_link i l b

unfoldable pub links_from : ℕ → List Link → Building → Option (List RtrLink × Building)
links_from i [] b = some ([], b)
links_from i (l ∷ ls) b = do
  (r, b₁) ← open_at i l l.my_listen_port b
  (rs, b₂) ← links_from (suc i) ls b₁
  some (r ∷ rs, b₂)

-- `TreeCore::TreeCore`.
unfoldable pub tree_core : List Link → Building → Option (List RtrLink × Building)
tree_core links b = links_from 0 links b

-- `struct Dim`.
pub record Dim : Type 0 where
  pub pos_port : Text
  pub neg_srvr : Text
  pub neg_srvr_port : Text

-- `TorusCore::ABC` of a dimension, which has one link.
pub record TorusLink : Type 0 where
  pub send : ℕ
  pub recv : ℕ

-- `TorusCore::TorusCore`.
unfoldable pub torus_core : List Dim → Building → Option (List TorusLink × Building)
torus_core [] b = some ([], b)
torus_core (d ∷ ds) b = do
  (send, recv, b₁) ← open_pair d.neg_srvr d.neg_srvr_port d.pos_port b
  (rs, b₂) ← torus_core ds b₁
  some (record { send = send; recv = recv } ∷ rs, b₂)

-- `TorusCore::getChannel`. `none` is an access outside `m_rtrLinks`.
unfoldable pub torus_channel : List TorusLink → ℕ → Option ℕ
torus_channel [] id = none
torus_channel (r ∷ rs) id = some r.send

-- `m_args`, once the options are read, and `m_routerCore`.
pub data CoreArgs : Type 0 where
  torus_args : List Dim → CoreArgs
  tree_args : List Link → CoreArgs

pub data RouterCore : Type 0 where
  torus : List TorusLink → RouterCore
  tree : List RtrLink → RouterCore

unfoldable pub new_core : CoreArgs → Building → Option (RouterCore × Building)
new_core (torus_args ds) b = do (rs, b') ← torus_core ds b; some (torus rs, b')
new_core (tree_args ls) b = do (rs, b') ← tree_core ls b; some (tree rs, b')

-- A port that the options do not name is not opened.
unfoldable pub listen : Side → Text → Building → Option Building
listen side [] b = some b
listen side (c ∷ port) b = do
  (ec, b') ← watch_channel (listen_config (c ∷ port)) (accepts side) b
  some b'

-- What `Router::Router` opens, with nothing open before.
unfoldable pub router_new : Text → Text → CoreArgs → Option (RouterCore × Building)
router_new client_port server_port core = do
  b₁ ← listen client_side client_port (record { channels = []; chan_map = []; next_channel = 0 })
  b₂ ← listen server_side server_port b₁
  new_core core b₂
