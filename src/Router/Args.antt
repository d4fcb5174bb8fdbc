-- ===== src/Router/Args.antt =====
-- tools/pwrdaemon/router/router.cc: `initArgs`, which reads the options of the router, and
-- `initTorusInfo`, which reads the description of a dimension.
pub mod Torus
pub mod FromStart
use pwrapi.Prelude.{
  ℕ, ◌+◌, ◌-◌, ◌%◌, ◌^◌, Option, none, some, List, [], ◌∷◌, ◌++◌, ◌==◌, ltb, if◌then◌else◌, length,
  take, replicate, set, ◌>>=◌,
}
use pwrapi.Prelude.Map.{text_beq}
use pwrapi.Chars.{Text, codes, npos, next, find_first_of, substr, atoi}
use pwrapi.Router.Table.{RouteTable, init_route_table}
use pwrapi.Router.Tree.{RtrLink, next_field, init_tree_info}
use pwrapi.Router.Select.{Routing}
use pwrapi.Router.Core.{
  Dim, CoreArgs, torus_args, tree_args, Building, RouterCore, torus, tree, unopened, router_new,
}

abbrev pub no_dim : Dim
no_dim = record { pos_port = []; neg_srvr = []; neg_srvr_port = [] }

-- `dim.resize( n )`.
unfoldable pub resize : ℕ → List Dim → List Dim
resize n dims = take n dims ++ replicate (n - length dims) no_dim

-- The description behind the number; the last field is cut with the position of the one before it.
unfoldable pub dim_in : Text → Option Dim
dim_in info = do
  (pos₁, port, info₁) ← next_field info
  (pos₂, srvr, info₂) ← next_field info₁
  srvr_port ← substr info₂ 0 (next pos₂)
  some (record { pos_port = port; neg_srvr = srvr; neg_srvr_port = srvr_port })

unfoldable pub put_dim : ℕ → List Dim → ℕ → Text → Option (List Dim)
put_dim dim dims pos info = do
  rest ← substr info (next pos) npos
  d ← dim_in rest
  some (set dims dim d)

-- `initTorusInfo`. The number of a dimension is an `unsigned`, and `dim + 1` wraps.
unfoldable pub init_torus_info : List Dim → Text → Option (List Dim)
init_torus_info dims info = do
  let pos = find_first_of info b':'
  number ← substr info 0 pos
  let dim = atoi number
  let dims' = resize ((dim + 1) % 2 ^ 32) dims
  if ltb dim (length dims') then put_dim dim dims' pos info else some dims'

-- `struct Args`.
pub record Args : Type 0 where
  pub rtr_id : ℕ
  pub route_table : Text
  pub server_port : Text
  pub client_port : Text
  pub core_args : Option CoreArgs

abbrev pub no_args : Args
no_args = record {
  rtr_id = 2 ^ 32 - 1;
  route_table = [];
  server_port = [];
  client_port = [];
  core_args = none;
}

-- What `getopt_long` gives: one of the `long_options` with its `optarg`, or an option that it does
-- not know.
pub data Given : Type 0 where
  clnt_port srvr_port rtr_type rtr_info rtr_id rtr_table : Text → Given
  unknown : Given

-- `new TorusArgs` or `new TreeArgs`.
unfoldable pub new_args : Text → Option CoreArgs
new_args type =
    if text_beq type (codes "torus")
    then some (torus_args [])
    else if text_beq type (codes "tree")
    then some (tree_args [])
    else none

-- The assertion that no type was given before.
unfoldable pub only_type : Option CoreArgs → Text → Option CoreArgs
only_type none type = new_args type
only_type (some core) type = none

unfoldable pub add_info : CoreArgs → Text → Option CoreArgs
add_info (torus_args dims) info = do dims' ← init_torus_info dims info; some (torus_args dims')
add_info (tree_args links) info = do links' ← init_tree_info links info; some (tree_args links')

-- One round of the loop. `none` is a failed assertion, a `substr` that throws, or `exit( -1 )`.
unfoldable pub init_arg : Given → Args → Option Args
init_arg (clnt_port arg) args = some (record args { client_port = arg })
init_arg (srvr_port arg) args = some (record args { server_port = arg })
init_arg (rtr_id arg) args = some (record args { rtr_id = atoi arg })
init_arg (rtr_table arg) args = some (record args { route_table = arg })
init_arg (rtr_type arg) args = do
  core ← only_type args.core_args arg
  some (record args { core_args = some core })
init_arg (rtr_info arg) args = do
  core ← args.core_args
  core' ← add_info core arg
  some (record args { core_args = some core' })
init_arg unknown args = none

unfoldable pub args_from : List Given → Args → Option Args
args_from [] args = some args
args_from (g ∷ gs) args = init_arg g args >>= args_from gs

-- A router needs an id and a table.
unfoldable pub check_args : Args → Option Args
check_args args =
    if args.rtr_id == 2 ^ 32 - 1
    then none
    else if text_beq args.route_table []
    then none
    else some args

-- `initArgs`.
unfoldable pub init_args : List Given → Option Args
init_args given = args_from given no_args >>= check_args

-- A router that has started.
pub record Started : Type 0 where
  pub args : Args
  pub core : RouterCore
  pub building : Building
  pub table : RouteTable

module _ (read_file : Text → Option Text) where
  -- `Router::Router`, with the contents of a file by its name.
  unfoldable pub start : List Given → Option Started
  start given = do
    args ← init_args given
    core_args ← args.core_args
    (core, building) ← router_new args.client_port args.server_port core_args
    file ← read_file args.route_table
    table ← init_route_table file
    some (record { args = args; core = core; building = building; table = table })

-- The core as `State` has it: a torus has one channel for all.
unfoldable pub links_of : RouterCore → List RtrLink
links_of (tree links) = links
links_of (torus []) = []
links_of (torus (r ∷ rs)) = record unopened { send = some r.send; recv = some r.recv } ∷ []

-- The router before `Router::work`: nobody is connected.
abbrev pub routing_of : ℕ → Started → Routing
routing_of unset s = record {
  router = record {
    state = record {
      id = s.args.rtr_id;
      links = links_of s.core;
      routes = s.table;
      local_map = [];
      server_map = [];
      pending = [];
      requests = [];
      sent = [];
      unset = unset;
    };
    clients = [];
    next_info = 0;
  };
  chan_map = s.building.chan_map;
  closed = [];
}
