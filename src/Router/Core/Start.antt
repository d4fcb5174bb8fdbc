-- ===== src/Router/Core/Start.antt =====
-- The channels of a router of a tree once `Router::Router` has made it.
use pwrapi.Prelude.{ℕ, ◌<◌, ◌≡◌, refl, some, List, [], ◌∷◌, All, length, arith}
use pwrapi.Prelude.Map.{nat_eq, lookup}
use pwrapi.Chars.{Text, npos}
use pwrapi.Channel.Config.{listens, port_of}
use pwrapi.Router.Select.{Side, client_side, server_side, accepts}
use pwrapi.Router.Tree.{RtrLink, Link, get_channel}
use pwrapi.Router.Core.{Building, listen_config, listen, tree_args, tree, new_core, router_new}
use pwrapi.Router.Core.Opened.{
  OneWord, listen_config-opening, IsFresh, IsOpen, Grown, watched, watch_channel-watched,
  watched-IsFresh, watched-Keeps, watched-IsOpen,
}
use pwrapi.Router.Core.Links.{IsUsable, LeadsTo, hop, tree_core-AreLinked, get_channel-hop}

-- A port, if it is given, has a channel that listens on it and accepts for the side.
abbrev pub Listening : Side → Text → Building → Type 0
Listening side port b =
    0 < length port → (ec : ℕ) × IsOpen b ec (listens (port_of port)) (accepts side)

-- A port that a configuration can carry.
pub record IsPort (port : Text) : Type 0 where
  pub word : OneWord port
  pub short : length (listen_config port) < npos

listen-Listening :
    (side : Side) (port : Text) (b : Building)
    → IsFresh b
    → IsPort port
    → (b' : Building) × (listen side port b ≡ some b') × Listening side port b' × Grown b b'
unfolding listen
listen-Listening side [] b fresh is =
    (b, refl, λ pos. absurd (omega (arith, pos)), record { fresh = fresh; keeps = λ ec o w h. h })
listen-Listening side (c ∷ port) b fresh is =
    let config = listen_config (c ∷ port) in
    let o = listens (port_of (c ∷ port)) in
    let w = accepts side in
    let e = listen_config-opening (c ∷ port) is.word is.short in
    (
      watched config o w b,
      rw (watch_channel-watched config o w b fresh e) refl,
      λ pos. (b.next_channel, watched-IsOpen config o w b fresh),
      record {
        fresh = watched-IsFresh config o w b fresh;
        keeps = watched-Keeps config o w b fresh;
      },
    )

Listening-keeps :
    (side : Side) (port : Text) (b b' : Building)
    → Grown b b'
    → Listening side port b
    → Listening side port b'
Listening-keeps side port b b' grown is pos = let (ec, at) = is pos in (ec, grown.keeps ec _ _ at)

abbrev nothing_open : Building
nothing_open = record { channels = []; chan_map = []; next_channel = 0 }

nothing_open-IsFresh : IsFresh nothing_open
unfolding lookup
nothing_open-IsFresh k above = refl

-- With ports and links that a configuration can carry, and the links' own ports given, a router of
-- a tree starts: it listens for clients and for servers on their ports, where these are given, and
-- sends the events for a router to a channel that connects to the host and the port of the first
-- link down whose arguments name the router, or of the link up if there is none.
pub router_new-hop :
    (client_port server_port : Text) (up : Link) (down : List Link)
    → IsPort client_port
    → IsPort server_port
    → All IsUsable (up ∷ down)
    → (rs : List RtrLink) × (b : Building) × (router_new client_port server_port
          (tree_args (up ∷ down))
        ≡ some (tree rs, b))
      × Listening client_side client_port b
      × Listening server_side server_port b
      × ((id : ℕ) → LeadsTo b (get_channel rs id) (hop up down id))
unfolding router_new new_core
router_new-hop client_port server_port up down client server usable =
    let (b₁, e₁, clients, grown₁) =
      listen-Listening client_side client_port nothing_open nothing_open-IsFresh client in
    let (b₂, e₂, servers, grown₂) =
      listen-Listening server_side server_port b₁ grown₁.fresh server in
    let (rs, b₃, e₃, are, grown₃) = tree_core-AreLinked (up ∷ down) b₂ grown₂.fresh usable in
    (
      rs,
      b₃,
      rw (e₁, e₂, e₃) refl,
      Listening-keeps client_side client_port b₂ b₃ grown₃
          (Listening-keeps client_side client_port b₁ b₂ grown₂ clients),
      Listening-keeps server_side server_port b₂ b₃ grown₃ servers,
      λ id. get_channel-hop b₃ up down rs id are,
    )
