-- ===== src/Tests/Context.antt =====
-- A context of a node with a socket, and samples of which one is the least.
use pwrapi.Prelude.{
  ℕ, ◌≡◌, ◌≢◌, ◌⊎◌, refl, none, some, true, [], ◌∷◌, ltb, get_elem?, if◌then◌else◌, arith,
}
use pwrapi.Prelude.Int.{pos}
use pwrapi.Prelude.Map.{nat_eq, text_eq, text_beq, lookup, insert}
use pwrapi.Events.{Text}
use pwrapi.Names.{obj_node, obj_socket, obj_invalid, obj_type_to_string}
use pwrapi.Context.{
  ObjConfig, Context, obj_code, same_type, create_object, find_object, find_object_at, with_object,
  each_name, in_list, add_to, new_grp, create_grp, get_grp_by_name, find_all_obj_type, kept,
  keep_grp, grp_name, get_grp, get_grp_at,
}
use pwrapi.Context.Named.{IsKept, find_object-IsKept}
use pwrapi.Context.Grouped.{get_grp_again}
use pwrapi.Context.Stats.{best}
use pwrapi.Context.Stats.Best.{Compares, IsBest, best-IsBest}

abbrev node : Text
node = b'n' ∷ []

abbrev socket : Text
socket = b's' ∷ []

abbrev cfg : ObjConfig
cfg = record {
  find_parent = λ name. if text_beq name socket then node else [];
  find_children = λ name. if text_beq name node then socket ∷ [] else [];
  obj_type = λ name.
      if text_beq name node
      then obj_node
      else (if text_beq name socket then obj_socket else obj_invalid);
  find_attr_hz = λ name attr. [];
}

abbrev empty : Context
empty = record { root = 0; obj_map = []; group_map = []; objects = []; groups = []; next = 0 }

empty-IsKept : IsKept cfg empty
unfolding lookup
empty-IsKept = record {
  named = λ name a at. absurd (ground (arith, at));
  fresh = λ a o at. absurd (ground (arith, at));
}

find_object-IsKept_example :
    let (found, st') = find_object cfg node empty in
    IsKept cfg st'
    × (((a : ℕ) × (found ≡ some a)
          × (lookup a st'.objects ≡ some (record { name = node; type = obj_node })))
        ⊎ (found ≡ none) × (same_type (cfg.obj_type node) obj_invalid ≡ true))
    × (find_object cfg node st' ≡ (found, st'))
find_object-IsKept_example = find_object-IsKept cfg node empty empty-IsKept

-- The root is the node, at address 0.
abbrev rooted : Context
rooted = record {
  root = 0;
  obj_map = (node, 0) ∷ [];
  group_map = [];
  objects = (0, record { name = node; type = obj_node }) ∷ [];
  groups = [];
  next = 1;
}

-- After the sockets are asked for once, and twice: the groups at 1 and at 3, and the socket at 2.
abbrev grouped : Context
grouped = record {
  root = 0;
  obj_map = (node, 0) ∷ (socket, 2) ∷ [];
  group_map = [];
  objects =
      (0, record { name = node; type = obj_node })
      ∷ (2, record { name = socket; type = obj_socket })
      ∷ [];
  groups = (1, 2 ∷ []) ∷ [];
  next = 3;
}

abbrev regrouped : Context
regrouped = record grouped { groups = (1, 2 ∷ []) ∷ (3, 2 ∷ []) ∷ []; next = 4 }

gets_sockets : get_grp cfg 2 obj_socket rooted ≡ some (some 1, grouped)
unfolding get_grp get_grp_at create_grp new_grp find_all_obj_type with_object each_name find_object
    find_object_at create_object add_to in_list keep_grp kept same_type obj_code lookup insert
    obj_type_to_string
gets_sockets = refl

gets_again : get_grp cfg 2 obj_socket grouped ≡ some (some 3, regrouped)
unfolding get_grp get_grp_at create_grp new_grp find_all_obj_type with_object each_name find_object
    find_object_at create_object add_to in_list keep_grp kept same_type obj_code lookup insert
    obj_type_to_string
gets_again = refl

get_grp_again_example : (get_grp_by_name (grp_name obj_socket) grouped ≡ none) × (◌≢◌ {A = ℕ} 3 1)
get_grp_again_example =
    get_grp_again cfg 2 2 obj_socket 1 3 rooted grouped regrouped gets_sockets gets_again

abbrev Number : ℕ → Type 0
Number n = Unit

less-Compares : Compares Number ltb
less-Compares = record {
  one_way = λ a b na nb h. ground (arith, h);
  not_across = λ a b c na nb nc h k. ground (arith, h, k);
}

abbrev all_numbers : (k y : ℕ) → get_elem? (4 ∷ 2 ∷ 3 ∷ 2 ∷ []) k ≡ some y → Number y
all_numbers k y at = tt

best-IsBest_example :
    (v p : ℕ) × (best ltb (4 ∷ 2 ∷ 3 ∷ 2 ∷ []) ≡ some (v, pos p))
    × IsBest Number ltb less-Compares (4 ∷ 2 ∷ 3 ∷ 2 ∷ []) all_numbers 4 v p
best-IsBest_example = best-IsBest Number ltb less-Compares 4 (2 ∷ 3 ∷ 2 ∷ []) all_numbers
