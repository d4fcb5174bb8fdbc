-- ===== src/Router/Core/Links.antt =====
-- The links of a router's core, once it is made, and where `getChannel` then sends an event.
use pwrapi.Prelude.{
  ℕ, suc, ◌<◌, ◌≡◌, refl, ◌∙◌, Option, some, List, [], ◌∷◌, All, arith, length, Bool, Bool-cases,
  leb, ◌&&◌, if◌then◌else◌, inl, inr,
}
use pwrapi.Chars.{Text, atoi}
use pwrapi.Channel.Config.{connects}
use pwrapi.Router.Select.{link}
use pwrapi.Router.Tree.{RtrLink, Link, get_channel, down_channel, covers}
use pwrapi.Router.Core.{Building, open_link, open_at, links_from, tree_core, below}
use pwrapi.Router.Core.Opened.{IsFresh, IsPlain, IsPairOpen, IsOpen, Grown, open_pair-IsPairOpen}

-- A link that has a port of its own, and texts that a configuration can carry.
pub record IsUsable (l : Link) : Type 0 where
  pub has_port : 0 < length l.my_listen_port
  pub plain : IsPlain l.other_host l.other_host_listen_port l.my_listen_port

-- What the constructor makes of the link with the number `i`.
pub record IsLinked (i : ℕ) (b : Building) (l : Link) (r : RtrLink) : Type 0 where
  pub send_channel : ℕ
  pub recv_channel : ℕ
  pub is_send : r.send ≡ some send_channel
  pub is_recv : r.recv ≡ some recv_channel
  pub first : r.nid_start ≡ below i l.nid_start
  pub last : r.nid_stop ≡ below i l.nid_stop
  pub is_open :
      IsPairOpen l.other_host l.other_host_listen_port l.my_listen_port send_channel recv_channel b

-- Link by link, from the number `i`.
unfoldable pub AreLinked : ℕ → Building → List Link → List RtrLink → Type 0
AreLinked i b [] [] = Unit
AreLinked i b [] (r ∷ rs) = ⊥
AreLinked i b (l ∷ ls) [] = ⊥
AreLinked i b (l ∷ ls) (r ∷ rs) = IsLinked i b l r × AreLinked (suc i) b ls rs

open_at-port :
    (i : ℕ) (l : Link) (port : Text) (b : Building)
    → 0 < length port
    → open_at i l port b ≡ open_link i l b
unfolding open_at
open_at-port i l [] b pos = absurd (omega (arith, pos))
open_at-port i l (c ∷ port) b pos = refl

IsLinked-keeps :
    (i : ℕ) (b b' : Building) (l : Link) (r : RtrLink)
    → Grown b b'
    → IsLinked i b l r
    → IsLinked i b' l r
IsLinked-keeps i b b' l r grown is = record {
  send_channel = is.send_channel;
  recv_channel = is.recv_channel;
  is_send = is.is_send;
  is_recv = is.is_recv;
  first = is.first;
  last = is.last;
  is_open = record {
    sends = grown.keeps _ _ _ is.is_open.sends;
    receives = grown.keeps _ _ _ is.is_open.receives;
  };
}

open_at-IsLinked :
    (i : ℕ) (l : Link) (b : Building)
    → IsFresh b
    → IsUsable l
    → (r : RtrLink) × (b' : Building) × (open_at i l l.my_listen_port b ≡ some (r, b'))
      × IsLinked i b' l r
      × Grown b b'
unfolding open_link
open_at-IsLinked i l b fresh u =
    let (send, recv, b', e, is, grown) =
      open_pair-IsPairOpen l.other_host l.other_host_listen_port l.my_listen_port b fresh u.plain in
    (
      record {
        send = some send;
        recv = some recv;
        nid_start = below i l.nid_start;
        nid_stop = below i l.nid_stop;
      },
      b',
      open_at-port i l l.my_listen_port b u.has_port ∙ rw (e) refl,
      record {
        send_channel = send;
        recv_channel = recv;
        is_send = refl;
        is_recv = refl;
        first = refl;
        last = refl;
        is_open = is;
      },
      grown,
    )

links_from-AreLinked :
    (i : ℕ) (ls : List Link) (b : Building)
    → IsFresh b
    → All IsUsable ls
    → (rs : List RtrLink) × (b' : Building) × (links_from i ls b ≡ some (rs, b'))
      × AreLinked i b' ls rs
      × Grown b b'
unfolding links_from AreLinked
links_from-AreLinked i [] b fresh all =
    ([], b, refl, tt, record { fresh = fresh; keeps = λ ec o w is. is })
links_from-AreLinked i (l ∷ ls) b fresh (u, all) =
    let (r, b₁, e, is, grown) = open_at-IsLinked i l b fresh u in
    let (rs, b₂, es, are, more) = links_from-AreLinked (suc i) ls b₁ grown.fresh all in
    (
      r ∷ rs,
      b₂,
      rw (e, es) refl,
      (IsLinked-keeps i b₁ b₂ l r more is, are),
      record { fresh = more.fresh; keeps = λ ec o w h. more.keeps ec o w (grown.keeps ec o w h) },
    )

-- The routers that a link's arguments name.
unfoldable pub within : Link → ℕ → Bool
within l id = leb (atoi l.nid_start) id && leb id (atoi l.nid_stop)

-- The link for a router: the first link down that names it, or the link up.
unfoldable pub hop : Link → List Link → ℕ → Link
hop up [] id = up
hop up (l ∷ ls) id = if within l id then l else hop up ls id

below_down : (i : ℕ) (nid : Text) → below (suc i) nid ≡ atoi nid
unfolding below
below_down i nid = ground arith

covers-within :
    (i : ℕ) (b : Building) (l : Link) (r : RtrLink) (id : ℕ)
    → IsLinked (suc i) b l r
    → covers r id ≡ within l id
unfolding covers within
covers-within i b l r id is =
    rw (is.first, is.last, below_down i l.nid_start, below_down i l.nid_stop) refl

-- A channel that connects to the router on the other side of a link, watched as a link.
abbrev pub LeadsTo : Building → Option ℕ → Link → Type 0
LeadsTo b ec l =
    (k : ℕ) × (ec ≡ some k) × IsOpen b k (connects l.other_host l.other_host_listen_port) link

IsLinked-LeadsTo :
    (i : ℕ) (b : Building) (l : Link) (r : RtrLink) → IsLinked i b l r → LeadsTo b r.send l
IsLinked-LeadsTo i b l r is = (is.send_channel, is.is_send, is.is_open.sends)

down_channel-hop :
    (i : ℕ) (b : Building) (ls : List Link) (rs : List RtrLink) (up : Link) (ec : Option ℕ) (id : ℕ)
    → AreLinked (suc i) b ls rs
    → LeadsTo b ec up
    → LeadsTo b (down_channel rs id ec) (hop up ls id)
unfolding down_channel hop AreLinked
down_channel-hop i b [] [] up ec id are leads = leads
down_channel-hop i b [] (r ∷ rs) up ec id are leads = elim are [ ]
down_channel-hop i b (l ∷ ls) [] up ec id are leads = elim are [ ]
down_channel-hop i b (l ∷ ls) (r ∷ rs) up ec id (is, are) leads =
    rw (covers-within i b l r id is) (elim (Bool-cases (within l id)) [
      | inl yes_l ↦ rw (yes_l) (IsLinked-LeadsTo (suc i) b l r is)
      | inr no_l ↦ rw (no_l) (down_channel-hop (suc i) b ls rs up ec id are leads)
    ])

pub get_channel-hop :
    (b : Building) (up : Link) (down : List Link) (rs : List RtrLink) (id : ℕ)
    → AreLinked 0 b (up ∷ down) rs
    → LeadsTo b (get_channel rs id) (hop up down id)
unfolding get_channel AreLinked
get_channel-hop b up down [] id are = elim are [ ]
get_channel-hop b up down (r ∷ rs) id (is, are) =
    down_channel-hop 0 b down rs up r.send id are (IsLinked-LeadsTo 0 b up r is)

-- From channels whose addresses are not given out again, and with links that are usable, the
-- constructor of a tree's core succeeds: each link has a channel that connects to its neighbour's
-- host and port, watched as a link, and one that listens on its own port, watched as one that
-- accepts routers; the links down have the numbers of their routers, and the channels that were
-- there before stay.
pub tree_core-AreLinked :
    (ls : List Link) (b : Building)
    → IsFresh b
    → All IsUsable ls
    → (rs : List RtrLink) × (b' : Building) × (tree_core ls b ≡ some (rs, b'))
      × AreLinked 0 b' ls rs
      × Grown b b'
unfolding tree_core
tree_core-AreLinked ls b fresh all = links_from-AreLinked 0 ls b fresh all

-- From channels whose addresses are not given out again, and with links that are usable, the core
-- of a tree is made, and it sends the events for a router to a channel that connects to the host
-- and the port of the first link down whose arguments name the router, or of the link up if there
-- is none; the select watches this channel as a link.
pub tree_core-hop :
    (up : Link) (down : List Link) (b : Building)
    → IsFresh b
    → All IsUsable (up ∷ down)
    → (rs : List RtrLink) × (b' : Building) × (tree_core (up ∷ down) b ≡ some (rs, b'))
      × ((id : ℕ) → LeadsTo b' (get_channel rs id) (hop up down id))
tree_core-hop up down b fresh all =
    let (rs, b', e, are, grown) = tree_core-AreLinked (up ∷ down) b fresh all in
    (rs, b', e, λ id. get_channel-hop b' up down rs id are)
