-- ===== src/Tests/Started.antt =====
-- A router of a torus of one dimension: its options, its start, and a client that comes.
use pwrapi.Prelude.{◌≡◌, refl, Option, some, List, [], ◌∷◌}
use pwrapi.Prelude.Map.{nat_eq, text_eq, lookup, insert}
use pwrapi.Chars.{
  Text, codes, find_first_from, find_first_not_from, substr, atoi, digits_from, to_int,
}
use pwrapi.Channel.Config.{
  listens, connects, port_of, text_at, opening_at, opening, split, split_from, split_one,
  after_value,
}
use pwrapi.Router.Table.{init_route_table, add_routes, lines_from}
use pwrapi.Router.Tree.{next_field}
use pwrapi.Router.Core.{
  torus, torus_args, router_new, new_core, torus_core, listen, open_pair, watch_channel,
  get_event_channel,
}
use pwrapi.Router.Clients.{add_client_chan}
use pwrapi.Router.Select.{
  client_side, router_side, accepts, events, link, Routing, accepted, add_channel, add_fresh,
  add_chan, process_accept, dispatch, process, work,
}
use pwrapi.Router.Select.Wired.{IsWired}
use pwrapi.Router.Args.{
  Given, clnt_port, rtr_type, rtr_info, rtr_id, rtr_table, resize, dim_in, put_dim, init_torus_info,
  new_args, only_type, add_info, init_arg, args_from, check_args, init_args, Started, start,
  routing_of,
}
use pwrapi.Router.Args.FromStart.{work-started}
use pwrapi.Tests.Sending.{plus}

abbrev given : List Given
given =
    clnt_port (codes "17")
    ∷ rtr_id (codes "0")
    ∷ rtr_type (codes "torus")
    ∷ rtr_info (codes "0:20:n:30")
    ∷ rtr_table (codes "table")
    ∷ []

-- A file without a line.
abbrev no_lines : Text → Option Text
no_lines name = some []

abbrev started : Started
started = record {
  args = record {
    rtr_id = 0;
    route_table = codes "table";
    server_port = [];
    client_port = codes "17";
    core_args = some (
        torus_args (
          record { pos_port = codes "20"; neg_srvr = codes "n"; neg_srvr_port = codes "30" } ∷ []));
  };
  core = torus (record { send = 1; recv = 2 } ∷ []);
  building = record {
    channels = (0, listens 17) ∷ (1, connects (codes "n") (codes "30")) ∷ (2, listens 20) ∷ [];
    chan_map = (0, accepts client_side) ∷ (1, link) ∷ (2, accepts router_side) ∷ [];
    next_channel = 3;
  };
  table = [];
}

given-started : start no_lines given ≡ some started
unfolding start init_args args_from check_args init_arg only_type new_args add_info init_torus_info
    put_dim dim_in next_field resize substr find_first_from atoi digits_from to_int router_new
    new_core torus_core listen open_pair watch_channel get_event_channel opening opening_at text_at
    port_of split split_from split_one after_value find_first_not_from lookup insert add_channel
    add_fresh init_route_table add_routes lines_from
given-started = refl

abbrev with_client : Routing
with_client = record (routing_of 77 started) {
  router = record (routing_of 77 started).router { clients = (9, []) ∷ [] };
  chan_map =
      (0, accepts client_side)
      ∷ (1, link)
      ∷ (2, accepts router_side)
      ∷ (9, events client_side)
      ∷ [];
}

comes : work plus ((0, accepted 9) ∷ []) (routing_of 77 started) ≡ some with_client
unfolding work process dispatch process_accept add_channel add_fresh add_chan add_client_chan lookup
    insert
comes = refl

work-started_example : IsWired with_client
work-started_example =
    work-started plus 77 no_lines given started ((0, accepted 9) ∷ []) with_client given-started
      comes
