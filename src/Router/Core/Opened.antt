-- ===== src/Router/Core/Opened.antt =====
-- The channels that a router's links get when it starts, and where its events then go.
use pwrapi.Prelude.{
  ℕ, suc, ◌≤◌, ◌<◌, ◌≡◌, refl, sym, ap, ◌∙◌, subst, none, some, false, List, [], ◌∷◌, ◌++◌, ◌==◌,
  length, All, ◌>>=◌, arith,
}
use pwrapi.Prelude.Map.{nat_eq, text_eq, lookup, insert, lookup-insert_else, lookup-insert_self}
use pwrapi.Chars.{Text, npos, codes}
use pwrapi.Chars.Fields.{Without}
use pwrapi.Channel.Config.{Opening, listens, connects, port_of, text_at, opening_at, opening}
use pwrapi.Channel.Config.Pairs.{Pair, IsPair, text_of, put_all, split-text_of}
use pwrapi.Router.Select.{Watch, accepts, router_side, link, add_channel, add_fresh}
use pwrapi.Router.Core.{
  Building, get_event_channel, watch_channel, server_config, listen_config, open_pair,
}

-- A value of a configuration is one word.
abbrev pub OneWord : Text → Type 0
OneWord t = Without b' ' t

server_pairs : Text → Text → List Pair
server_pairs host port =
    record { key = codes "server"; value = host }
    ∷ record { key = codes "serverPort"; value = port }
    ∷ []

port_part :
    (port : Text) → b' ' ∷ (codes "serverPort" ++ b'=' ∷ port) ≡ codes " serverPort=" ++ port
port_part port = refl

text_of-server_pairs :
    (host port : Text) → text_of (server_pairs host port) ≡ server_config host port
unfolding text_of server_pairs
text_of-server_pairs host port = ap (λ t. codes "server=" ++ (host ++ t)) (port_part port)

pub server_config-opening :
    (host port : Text)
    → OneWord host
    → OneWord port
    → length (server_config host port) < npos
    → opening (server_config host port) ≡ some (connects host port)
unfolding opening server_pairs put_all lookup insert opening_at text_at
server_config-opening host port h p short =
    let is : All IsPair (server_pairs host port) = (
      record { no_equals = ground arith; no_space = ground arith; one_word = h },
      (record { no_equals = ground arith; no_space = ground arith; one_word = p }, tt),
    ) in
    let same = text_of-server_pairs host port in
    ap opening (sym same)
    ∙ ap (λ m. m >>= (λ (m : List (Text × Text)). some (opening_at (lookup (codes "server") m) m)))
        (split-text_of (server_pairs host port) is (subst (λ t. length t < npos) (sym same) short))

pub listen_config-opening :
    (port : Text)
    → OneWord port
    → length (listen_config port) < npos
    → opening (listen_config port) ≡ some (listens (port_of port))
unfolding opening text_of put_all lookup insert opening_at text_at
listen_config-opening port p short =
    let ps : List Pair = record { key = codes "listenPort"; value = port } ∷ [] in
    let is : All IsPair ps =
      (record { no_equals = ground arith; no_space = ground arith; one_word = p }, tt) in
    ap (λ m. m >>= (λ (m : List (Text × Text)). some (opening_at (lookup (codes "server") m) m)))
      (split-text_of ps is short)

-- No channel has an address that is still to be given out.
abbrev pub IsFresh : Building → Type 0
IsFresh b = (k : ℕ) → b.next_channel ≤ k → lookup k b.chan_map ≡ none

-- A channel that exists, with what it was opened for and how the select watches it.
pub record IsOpen (b : Building) (ec : ℕ) (o : Opening) (w : Watch) : Type 0 where
  pub given_out : ec < b.next_channel
  pub opened : lookup ec b.channels ≡ some o
  pub watched : lookup ec b.chan_map ≡ some w

-- Every channel is still there.
abbrev pub Keeps : Building → Building → Type 0
Keeps b b' = (ec : ℕ) (o : Opening) (w : Watch) → IsOpen b ec o w → IsOpen b' ec o w

pub watched : Text → Opening → Watch → Building → Building
watched config o w b = record {
  channels = insert b.next_channel o b.channels;
  chan_map = insert b.next_channel w b.chan_map;
  next_channel = suc b.next_channel;
}

module _ (config : Text) (o : Opening) (w : Watch) (b : Building) (fresh : IsFresh b) where
  pub watch_channel-watched :
      opening config ≡ some o
      → watch_channel config w b ≡ some (b.next_channel, watched config o w b)
  unfolding watch_channel get_event_channel add_channel add_fresh watched
  watch_channel-watched e = rw (e, fresh b.next_channel (omega arith)) refl

  pub watched-IsFresh : IsFresh (watched config o w b)
  unfolding watched
  watched-IsFresh k above =
      lookup-insert_else b.next_channel k b.chan_map w (ground (arith, above))
      ∙ fresh k (omega (arith, above))

  pub watched-Keeps : Keeps b (watched config o w b)
  unfolding watched
  watched-Keeps ec o' w' is =
      let apart : (b.next_channel == ec) ≡ false = ground (arith, is.given_out) in
      record {
        given_out = omega (arith, is.given_out);
        opened = lookup-insert_else b.next_channel ec b.channels o apart ∙ is.opened;
        watched = lookup-insert_else b.next_channel ec b.chan_map w apart ∙ is.watched;
      }

  pub watched-IsOpen : IsOpen (watched config o w b) b.next_channel o w
  unfolding watched
  watched-IsOpen = record {
    given_out = omega arith;
    opened = lookup-insert_self b.next_channel o b.channels;
    watched = lookup-insert_self b.next_channel w b.chan_map;
  }

-- What the two channels of a link are.
pub record IsPairOpen (host port mine : Text) (send recv : ℕ) (b : Building) : Type 0 where
  pub sends : IsOpen b send (connects host port) link
  pub receives : IsOpen b recv (listens (port_of mine)) (accepts router_side)

-- The texts of a link that a configuration can carry.
pub record IsPlain (host port mine : Text) : Type 0 where
  pub host_word : OneWord host
  pub port_word : OneWord port
  pub mine_word : OneWord mine
  pub server_short : length (server_config host port) < npos
  pub listen_short : length (listen_config mine) < npos

-- A round of a constructor that has gone well.
pub record Grown (b b' : Building) : Type 0 where
  pub fresh : IsFresh b'
  pub keeps : Keeps b b'

pub open_pair-IsPairOpen :
    (host port mine : Text) (b : Building)
    → IsFresh b
    → IsPlain host port mine
    → (send recv : ℕ) × (b' : Building) × (open_pair host port mine b ≡ some (send, recv, b'))
      × IsPairOpen host port mine send recv b'
      × Grown b b'
unfolding open_pair
open_pair-IsPairOpen host port mine b fresh plain =
    let server = server_config host port in
    let to = server_config-opening host port plain.host_word plain.port_word plain.server_short in
    let from = listen_config-opening mine plain.mine_word plain.listen_short in
    let b₁ = watched server (connects host port) link b in
    let fresh₁ = watched-IsFresh server (connects host port) link b fresh in
    let at = listens (port_of mine) in
    let w = accepts router_side in
    let own = listen_config mine in
    let b₂ = watched own at w b₁ in
    (
      b.next_channel,
      b₁.next_channel,
      b₂,
      rw
          (
            watch_channel-watched server (connects host port) link b fresh to,
            watch_channel-watched own at w b₁ fresh₁ from,
          )
          refl,
      record {
        sends =
            watched-Keeps own at w b₁ fresh₁ b.next_channel (connects host port) link
              (watched-IsOpen server (connects host port) link b fresh);
        receives = watched-IsOpen own at w b₁ fresh₁;
      },
      record {
        fresh = watched-IsFresh own at w b₁ fresh₁;
        keeps = λ ec o w' is.
            watched-Keeps own at w b₁ fresh₁ ec o w'
              (watched-Keeps server (connects host port) link b fresh ec o w' is);
      },
    )
