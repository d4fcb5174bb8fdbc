-- ===== src/Tests/Start.antt =====
-- A dimension of a torus, and a router of a tree that starts: the channels that it opens.
use pwrapi.Prelude.{ℕ, ◌≡◌, some, List, [], ◌∷◌, All, arith}
use pwrapi.Prelude.Map.{nat_eq, text_eq}
use pwrapi.Chars.{codes, to_int}
use pwrapi.Chars.Fields.{value}
use pwrapi.Router.Tree.{Link, RtrLink, get_channel}
use pwrapi.Router.Core.{Building, tree, tree_args, router_new}
use pwrapi.Router.Core.Links.{IsUsable, LeadsTo, hop}
use pwrapi.Router.Core.Start.{IsPort, Listening, router_new-hop}
use pwrapi.Router.Select.{client_side, server_side}
use pwrapi.Router.Args.{resize, init_torus_info}
use pwrapi.Router.Args.Torus.{Description, IsDescription, init_torus_info-Description}

-- A dimension whose neighbour has a short name: its port is cut.
abbrev short_name : Description
short_name = record {
  number = codes "1";
  port = codes "13000";
  srvr = codes "n1";
  srvr_port = codes "13001";
}

short_name-IsDescription : IsDescription short_name
unfolding value to_int
short_name-IsDescription = record {
  number = ground arith;
  some_number = ground arith;
  small = ground arith;
  port = ground arith;
  srvr = ground arith;
  short = ground arith;
}

init_torus_info-Description_example :
    init_torus_info [] (codes "1:13000:n1:13001")
    ≡ some (
        record { pos_port = []; neg_srvr = []; neg_srvr_port = [] }
        ∷ record { pos_port = codes "13000"; neg_srvr = codes "n1"; neg_srvr_port = codes "130" }
        ∷ [])
unfolding resize value to_int
init_torus_info-Description_example =
    init_torus_info-Description [] short_name short_name-IsDescription

abbrev up : Link
up = record {
  my_listen_port = codes "20";
  other_host = codes "root";
  other_host_listen_port = codes "21";
  nid_start = [];
  nid_stop = [];
}

abbrev leaf : Link
leaf = record {
  my_listen_port = codes "22";
  other_host = codes "leaf";
  other_host_listen_port = codes "23";
  nid_start = codes "20";
  nid_stop = codes "29";
}

links-IsUsable : All IsUsable (up ∷ leaf ∷ [])
links-IsUsable = (
  record {
    has_port = ground arith;
    plain = record {
      host_word = ground arith;
      port_word = ground arith;
      mine_word = ground arith;
      server_short = ground arith;
      listen_short = ground arith;
    };
  },
  (
    record {
      has_port = ground arith;
      plain = record {
        host_word = ground arith;
        port_word = ground arith;
        mine_word = ground arith;
        server_short = ground arith;
        listen_short = ground arith;
      };
    },
    tt,
  ),
)

seventeen-IsPort : IsPort (codes "17")
seventeen-IsPort = record { word = ground arith; short = ground arith }

router_new-hop_example :
    (rs : List RtrLink) × (b : Building) × (router_new (codes "17") [] (tree_args (up ∷ leaf ∷ []))
      ≡ some (tree rs, b))
    × Listening client_side (codes "17") b
    × Listening server_side [] b
    × ((id : ℕ) → LeadsTo b (get_channel rs id) (hop up (leaf ∷ []) id))
router_new-hop_example =
    router_new-hop (codes "17") [] up (leaf ∷ []) seventeen-IsPort
      (record { word = ground arith; short = ground arith }) links-IsUsable
