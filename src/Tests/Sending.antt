-- ===== src/Tests/Sending.antt =====
-- A router with two routes: to its own server 5, and to router 25.
use pwrapi.Prelude.{ℕ, ◌≡◌, ◌≢◌, refl, none, some, List, [], ◌∷◌, ◌++◌, map, arith}
use pwrapi.Prelude.Map.{nat_eq, text_eq, lookup}
use pwrapi.Chars.{Text}
use pwrapi.Events.Message.{Message, connect, routed}
use pwrapi.Events.Routed.{RouterEvent}
use pwrapi.Router.Ids.{rtr_id, server_id, no_id, no_app}
use pwrapi.Router.Table.{find_route}
use pwrapi.Router.Tree.{RtrLink, covers, down_channel, get_channel}
use pwrapi.Router.Send.{
  State, send_obj, connect_server, find_server_chan, find_rtr_chan, del_server_chan,
}
use pwrapi.Router.Send.Carried.{carried, from_router}
use pwrapi.Router.Send.Waiting.{send_all}
use pwrapi.Router.Send.Pending.{IsAway, send_all-connect_server, send_all-deleted}
use pwrapi.Router.Send.Routes.{send_obj-unknown, find_server_chan-del_server_chan}

abbrev pub plus : ℕ → ℕ → ℕ
plus a b = a

abbrev pub node : Text
node = b'n' ∷ []

-- Router 1, server 5.
abbrev pub own : ℕ
own = 4294967301

abbrev pub links : List RtrLink
links =
    record { send = some 90; recv = none; nid_start = 0; nid_stop = 0 }
    ∷ record { send = some 91; recv = none; nid_start = 20; nid_stop = 29 }
    ∷ []

-- The connection 70 is open, and its server has not said its name.
abbrev pub router : State
router = record {
  id = 1;
  links = links;
  routes = (node, own) ∷ [];
  local_map = [];
  server_map = (70, []) ∷ [];
  pending = [];
  requests = [];
  sent = [];
  unset = 77;
}

abbrev hello : Message
hello = connect (record { event = record { type = 9; id = 5; status = 0 }; name = node })

-- Server 5 is connected.
abbrev pub running : State
running = record router { local_map = (5, some 70) ∷ []; server_map = (70, node) ∷ [] }

pub route_own : find_route router.routes node ≡ own
unfolding find_route lookup
route_own = refl

pub own_here : rtr_id own ≡ 1
unfolding rtr_id
own_here = refl

pub own_server : server_id own ≢ no_id
unfolding server_id
own_server e = absurd (omega (arith, e))

own-IsAway : IsAway node [] own 70 router
unfolding lookup
own-IsAway = record {
  route = route_own;
  here = own_here;
  is_server = own_server;
  away = refl;
  quiet = refl;
  chan = refl;
}

send_all-connect_server_example :
    (st₁ : State) × (st₂ : State) × (send_all plus own (hello ∷ hello ∷ []) router ≡ some st₁)
    × (st₁.sent ≡ router.sent)
    × (connect_server node 70 st₁ ≡ some st₂)
    × (st₂.sent
        ≡ router.sent ++ map (λ e. (70, e)) (map (carried router.id own) (hello ∷ hello ∷ [])))
unfolding from_router
send_all-connect_server_example =
    send_all-connect_server plus node [] own 70 hello (hello ∷ []) router own-IsAway
      (refl, (refl, tt))

-- An event for server 5 from another router.
abbrev brought : RouterEvent
brought = record {
  event = record { type = 10; id = 0; status = 0 };
  src = 8;
  dest = own;
  event_type = 9;
  payload = [];
}

send_all-deleted_example :
    (st₁ : State) × (send_all plus own (hello ∷ routed brought ∷ []) router ≡ some st₁)
    × (st₁.sent ≡ router.sent)
    × (connect_server node 70 st₁ ≡ none)
send_all-deleted_example =
    send_all-deleted plus node [] own 70 (hello ∷ []) [] brought router own-IsAway

five : 5 ≢ no_id
five e = absurd (omega (arith, e))

known : lookup 5 running.local_map ≡ some (some 70)
unfolding lookup
known = refl

pub own_known : lookup (server_id own) running.local_map ≡ some (some 70)
unfolding lookup server_id
own_known = refl

unknown : lookup (b'x' ∷ []) router.routes ≡ none
unfolding lookup
unknown = refl

real_router : router.id ≢ no_id
real_router e = absurd (omega (arith, e))

link_up : find_rtr_chan no_id router ≡ some 90
unfolding find_rtr_chan get_channel down_channel covers
link_up = refl

send_obj-unknown_example :
    send_obj plus (b'x' ∷ []) hello router
    ≡ some (record router { sent = router.sent ++ (90, carried router.id no_app hello) ∷ [] })
send_obj-unknown_example =
    send_obj-unknown plus (b'x' ∷ []) 90 hello router unknown real_router link_up

chan_named : lookup 70 running.server_map ≡ some node
unfolding lookup
chan_named = refl

not_zero : ◌≢◌ {A = ℕ} 5 0
not_zero e = absurd (omega (arith, e))

find_server_chan-del_server_chan_example :
    (find_server_chan 5 (del_server_chan 70 running)).0 ≡ some 70
find_server_chan-del_server_chan_example =
    find_server_chan-del_server_chan running node 70 70 5 chan_named known not_zero five
