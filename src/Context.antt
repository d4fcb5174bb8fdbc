-- ===== src/Context.antt =====
-- src/pwr/cntxt.cc, with what src/pwr/distCntxt.cc overrides: the objects and the groups of a
-- context. A pointer is an address; the attributes of an object are those of Dist/Cntxt. `none` is
-- a failed assertion or an address that is not live.
pub mod Named
pub mod Grouped
pub mod Stats
use pwrapi.Prelude.{
  ℕ, zero, suc, Option, none, some, Bool, true, false, List, [], ◌∷◌, ◌++◌, ◌==◌, if◌then◌else◌,
  ◌>>=◌,
}
use pwrapi.Prelude.Int.{ℤ, pos, negsuc, eq_ℤ}
use pwrapi.Prelude.Map.{Eq, nat_eq, text_eq, lookup, insert}
use pwrapi.Objects.{success, failure}
use pwrapi.Events.{Text}
use pwrapi.Names.{
  ObjType, obj_platform, obj_cabinet, obj_chassis, obj_board, obj_node, obj_socket, obj_core,
  obj_power_plane, obj_mem, obj_nic, obj_invalid, obj_not_specified, obj_type_to_string,
}

-- The values of `PWR_ObjType`.
unfoldable pub obj_code : ObjType → ℤ
obj_code obj_platform = pos 0
obj_code obj_cabinet = pos 1
obj_code obj_chassis = pos 2
obj_code obj_board = pos 3
obj_code obj_node = pos 4
obj_code obj_socket = pos 5
obj_code obj_core = pos 6
obj_code obj_power_plane = pos 7
obj_code obj_mem = pos 8
obj_code obj_nic = pos 9
obj_code obj_invalid = negsuc 0
obj_code obj_not_specified = negsuc 1

unfoldable pub same_type : ObjType → ObjType → Bool
same_type a b = eq_ℤ (obj_code a) (obj_code b)

-- What is used of `Config`. An object without a parent has the empty name for it.
pub record ObjConfig : Type 0 where
  pub find_parent : Text → Text
  pub find_children : Text → List Text
  pub obj_type : Text → ObjType
  pub find_attr_hz : Text → ℕ → Text

-- What `getParent` and the traversals read of an `Object`.
pub record Obj : Type 0 where
  pub name : Text
  pub type : ObjType

-- `m_rootObj`, `m_objMap` and `m_groupMap`, with the live objects and the lists of the live groups.
pub record Context : Type 0 where
  pub root : ℕ
  pub obj_map : List (Text × ℕ)
  pub group_map : List (Text × ℕ)
  pub objects : List (ℕ × Obj)
  pub groups : List (ℕ × List ℕ)
  pub next : ℕ

-- `m_objMap[name] = createObject( name, type, this )`
unfoldable pub create_object : Text → ObjType → Context → Context
create_object name type st = record st {
  obj_map = insert name st.next st.obj_map;
  objects = insert st.next (record { name = name; type = type }) st.objects;
  next = suc st.next;
}

-- `Cntxt::findObject`: NULL for a name that the configuration has no type for.
unfoldable pub find_object_at : Option ℕ → ObjType → Text → Context → Option ℕ × Context
find_object_at (some a) type name st = (some a, st)
find_object_at none type name st =
    if same_type type obj_invalid then (none, st) else (some st.next, create_object name type st)

-- `delete grp`.
unfoldable pub drop_key : ℕ → List (ℕ × List ℕ) → List (ℕ × List ℕ)
drop_key g [] = []
drop_key g ((h, os) ∷ m) = let rest = drop_key g m in if h == g then rest else (h, os) ∷ rest

-- `destroyGrp`, which `DistCntxt` overrides: `m_groupMap` is not looked at.
unfoldable pub destroy_grp : ℕ → Context → ℤ × Context
destroy_grp g st = (success, record st { groups = drop_key g st.groups })

unfoldable pub in_list : ℕ → List ℕ → Bool
in_list a [] = false
in_list a (b ∷ bs) = let rest = in_list a bs in if b == a then true else rest

-- `grp->add( obj )`, whose result is not read. The two lists of a `DistGrp` are one here.
unfoldable pub add_to : ℕ → ℕ → Context → Option Context
add_to g a st = do
  os ← lookup g st.groups
  some (if in_list a os then st else record st { groups = insert g (os ++ a ∷ []) st.groups })

-- `new DistGrp( this, name )`.
unfoldable pub new_grp : Context → ℕ × Context
new_grp st = (st.next, record st { groups = insert st.next [] st.groups; next = suc st.next })

-- `createGrp`, which `DistCntxt` overrides: the group is not put into `m_groupMap`.
unfoldable pub create_grp : Text → Context → ℕ × Context
create_grp name st = new_grp st

-- `Cntxt::getGrpByName`.
unfoldable pub get_grp_by_name : Text → Context → Option ℕ
get_grp_by_name name st = lookup name st.group_map

abbrev pub internal_text : Text
internal_text = b'i' ∷ b'n' ∷ b't' ∷ b'e' ∷ b'r' ∷ b'n' ∷ b'a' ∷ b'l' ∷ []

-- A loop over names.
unfoldable pub each_name : (Text → Context → Option Context) → List Text → Context → Option Context
each_name step [] st = some st
each_name step (x ∷ xs) st = step x st >>= each_name step xs

unfoldable pub no_names : Text → Bool
no_names [] = true
no_names (b ∷ bs) = false

-- The group that `findAllObjType` has filled, unless it is empty.
unfoldable pub kept : ℕ → List ℕ → Context → Option ℕ × Context
kept g [] st = (none, (destroy_grp g st).1)
kept g (o ∷ os) st = (some g, st)

unfoldable pub keep_grp : ℕ → Context → Option (Option ℕ × Context)
keep_grp g st = do os ← lookup g st.groups; some (kept g os st)

abbrev pub grp_name : ObjType → Text
grp_name type = internal_text ++ obj_type_to_string type

module _ (cfg : ObjConfig) where
  unfoldable pub find_object : Text → Context → Option ℕ × Context
  find_object name st = find_object_at (lookup name st.obj_map) (cfg.obj_type name) name st

  -- `findObject` with the assertion that follows it, and what is done with the object.
  unfoldable pub with_object : (ℕ → Context → Option Context) → Text → Context → Option Context
  with_object f name st = let (found, st') = find_object name st in found >>= (λ (a : ℕ). f a st')

  -- `Cntxt::findAllObjType`, to a depth. `none` is also a tree that is deeper.
  unfoldable pub find_all_obj_type : ℕ → ObjType → ℕ → ℕ → Context → Option Context
  find_all_obj_type zero type g a st = none
  find_all_obj_type (suc depth) type g a st = do
    o ← lookup a st.objects
    let down =
        each_name (with_object (find_all_obj_type depth type g)) (cfg.find_children o.name) st
    if same_type o.type type then add_to g a st else down

  -- `Cntxt::getChildren`.
  unfoldable pub get_children : ℕ → Context → Option (ℕ × Context)
  get_children a st = do
    o ← lookup a st.objects
    let (g, st') = new_grp st
    st'' ← each_name (with_object (add_to g)) (cfg.find_children o.name) st'
    some (g, st'')

  -- `Cntxt::getParent`, where the map is written once more for an object that `findObject` has found.
  unfoldable pub get_parent : ℕ → Context → Option (Option ℕ × Context)
  get_parent a st = do
    o ← lookup a st.objects
    let parent = cfg.find_parent o.name
    let (found, st') = find_object parent st
    let above = found >>= (λ (p : ℕ). some (some p, st'))
    if a == st.root then some (none, st) else (if no_names parent then some (none, st) else above)

  unfoldable pub get_grp_at : Option ℕ → ℕ → ObjType → Text → Context → Option (Option ℕ × Context)
  get_grp_at (some g) depth type name st = some (none, st)
  get_grp_at none depth type name st = do
    let (g, st₁) = create_grp name st
    st₂ ← find_all_obj_type depth type g st.root st₁
    keep_grp g st₂

  -- `Cntxt::getGrp`, to a depth: NULL when the group of the type is there already.
  unfoldable pub get_grp : ℕ → ObjType → Context → Option (Option ℕ × Context)
  get_grp depth type st =
      get_grp_at (lookup (grp_name type) st.group_map) depth type (grp_name type) st
