-- ===== src/XmlConfig.antt =====
-- src/pwr/xmlConfig.cc: the configuration of a context, read from an XML document. The library that
-- parses the document is a parameter, with the nodes as it gives them.
pub mod Paths
pub mod Location
pub mod Schema
use pwrapi.Prelude.{
  ℕ, zero, suc, Option, none, some, Bool, true, false, not, List, [], ◌∷◌, ◌++◌, map, ◌==◌, length,
  take, if◌then◌else◌, ◌>>=◌,
}
use pwrapi.Prelude.Map.{text_beq}
use pwrapi.Chars.{Text, codes, npos, find_last_of}
use pwrapi.Names.{ObjType, obj_invalid, obj_type_str_to_int, obj_type_to_string}
use pwrapi.Names.Attrs.{AttrName, xml_attr_name}
use pwrapi.Context.{no_names}
use pwrapi.Dist.Cntxt.{ObjDev, SysDev}

-- What is used of tinyxml2: `Name`, `Attribute`, which is NULL for a name that is not there, and the
-- nodes that `FirstChild` and then `NextSibling` give. Every node is taken for an element, as the
-- casts of the source do.
pub record Dom (Node : Type 0) : Type 0 where
  pub name : Node → Text
  pub attribute : Node → Text → Option Text
  pub children : Node → List Node

-- `Config::Plugin`.
pub record Plugin : Type 0 where
  pub name : Text
  pub lib : Text

-- `findParent`: `substr( 0, pos )` never throws.
unfoldable pub find_parent : Text → Text
find_parent name = let pos = find_last_of name b'.' in if pos == npos then [] else take pos name

-- A failed assertion.
unfoldable pub assert : {A : Type 0} → Bool → Option A → Option A
assert true r = r
assert false r = none

-- `tmp ? tmp : ""`
unfoldable pub or_empty : Option Text → Text
or_empty none = []
or_empty (some t) = t

unfoldable pub is_some : {A : Type 0} → Option A → Bool
is_some none = false
is_some (some a) = true

unfoldable pub no_nodes : {A : Type 0} → List A → Bool
no_nodes [] = true
no_nodes (n ∷ ns) = false

-- A name below that of an object.
abbrev pub dotted : Text → Text → Text
dotted name child = name ++ b'.' ∷ child

-- `none` is a failed assertion, or an attribute that is not there where its text is used.
module _ {Node : Type 0} (dom : Dom Node) where
  -- `findNode`, among the siblings from a node on.
  unfoldable pub find_node : Text → List Node → Option Node
  find_node name [] = none
  find_node name (n ∷ ns) =
      let rest = find_node name ns in if text_beq name (dom.name n) then some n else rest

  unfoldable pub children_of : Option Node → List Node
  children_of none = []
  children_of (some n) = dom.children n

  -- `findNodes1stChild`, and the siblings that follow.
  unfoldable pub find_nodes1st_child : Text → List Node → List Node
  find_nodes1st_child name ns = children_of (find_node name ns)

  -- The second loop of `findNodeWithAttr`, and that of `findObject`.
  unfoldable pub find_with : Text → Text → List Node → Option (Option Node)
  find_with attr value [] = some none
  find_with attr value (n ∷ ns) =
      let rest = find_with attr value ns in
      dom.attribute n attr >>= (λ (v : Text). if text_beq value v then some (some n) else rest)

  unfoldable pub find_node_with_attr : Node → Text → Text → Text → Option (Option Node)
  find_node_with_attr elm node attr value =
      find_with attr value (find_nodes1st_child node (dom.children elm))

  unfoldable pub find_dev : Node → Text → Option (Option Node)
  find_dev elm name = find_node_with_attr elm (codes "devices") (codes "name") name

  unfoldable pub find_attr : Node → Text → Option (Option Node)
  find_attr elm attr = find_node_with_attr elm (codes "attributes") (codes "name") attr

  -- The constructor: `m_systemNode`, among the root and its siblings.
  pub find_system : List Node → Option Node
  find_system roots = find_node (codes "System") roots

  -- The loop of `findPlugins`.
  pub plugins_from : List Node → Option (List Plugin)
  plugins_from [] = some []
  plugins_from (n ∷ ns) = assert (text_beq (dom.name n) (codes "plugin")) (do
    name ← dom.attribute n (codes "name")
    lib ← dom.attribute n (codes "lib")
    rest ← plugins_from ns
    some (record { name = name; lib = lib } ∷ rest))

  -- The loop of `findSysDevs`.
  pub sys_devs_from : List Node → Option (List SysDev)
  sys_devs_from [] = some []
  sys_devs_from (n ∷ ns) = assert (text_beq (dom.name n) (codes "device")) (do
    name ← dom.attribute n (codes "name")
    plugin ← dom.attribute n (codes "plugin")
    init_string ← dom.attribute n (codes "initString")
    rest ← sys_devs_from ns
    some (record { name = name; plugin = plugin; init_string = init_string } ∷ rest))

  -- The device that a source of an attribute names.
  unfoldable pub open_dev : Node → Node → Option ObjDev
  open_dev obj src = do
    name ← dom.attribute src (codes "name")
    found ← find_dev obj name
    dev ← found
    device ← dom.attribute dev (codes "device")
    open_string ← dom.attribute dev (codes "openString")
    some (record { device = device; open_string = open_string })

  -- The loop of `findObjDevs`.
  unfoldable pub obj_devs_from : Node → List Node → Option (List ObjDev)
  obj_devs_from obj [] = some []
  obj_devs_from obj (n ∷ ns) =
      let rest = obj_devs_from obj ns in
      let opened =
        open_dev obj n
        >>= (λ (dev : ObjDev). rest >>= (λ (devs : List ObjDev). some (dev ∷ devs))) in
      assert (text_beq (dom.name n) (codes "src")) (
        dom.attribute n (codes "type")
        >>= (λ (type : Text). if text_beq type (codes "device") then opened else rest))

  -- The first loop of `findAttrChildren`.
  unfoldable pub child_names : List Node → Option (List Text)
  child_names [] = some []
  child_names (n ∷ ns) =
      let rest = child_names ns in
      let named =
        dom.attribute n (codes "name")
        >>= (λ (name : Text). rest >>= (λ (names : List Text). some (name ∷ names))) in
      assert (text_beq (dom.name n) (codes "src")) (
        dom.attribute n (codes "type")
        >>= (λ (type : Text). if text_beq type (codes "child") then named else rest))

  -- The inner loop of the second, which only prints.
  unfoldable pub compared : List Node → Option (List Node)
  compared [] = some []
  compared (n ∷ ns) =
      dom.attribute n (codes "name")
      >>= (λ (name : Text). compared ns >>= (λ (rest : List Node). some (n ∷ rest)))

  -- The second loop, for each name.
  unfoldable pub checked : Node → List Text → Option (List Text)
  checked obj [] = some []
  checked obj (name ∷ names) =
      let nodes = find_nodes1st_child (codes "children") (dom.children obj) in
      assert (not (no_nodes nodes)) (
        compared nodes
        >>= (λ (ns : List Node). checked obj names >>= (λ (rest : List Text). some (name ∷ rest))))

  -- The loop of `findChildren`, below an object's name.
  unfoldable pub children_from : Text → List Node → Option (List Text)
  children_from name [] = some []
  children_from name (n ∷ ns) = assert (text_beq (dom.name n) (codes "child")) (do
    child ← dom.attribute n (codes "name")
    rest ← children_from name ns
    some (dotted name child ∷ rest))

  -- The loop of `findObjType`.
  pub of_type : Text → List Node → Option (List Text)
  of_type type [] = some []
  of_type type (n ∷ ns) =
      let rest = of_type type ns in
      let named =
        dom.attribute n (codes "name")
        >>= (λ (name : Text). rest >>= (λ (names : List Text). some (name ∷ names))) in
      assert (text_beq (dom.name n) (codes "obj"))
        (dom.attribute n (codes "type") >>= (λ (t : Text). if text_beq type t then named else rest))

  module _ (system : Node) where
    unfoldable pub find_object : Text → Option (Option Node)
    find_object name =
        find_with (codes "name") name (find_nodes1st_child (codes "Objects") (dom.children system))

    -- `findObject`, and the assertion that follows it in most of its callers.
    unfoldable pub get_object : Text → Option Node
    get_object name = find_object name >>= (λ (found : Option Node). found)

    pub has_object : Text → Option Bool
    has_object name = find_object name >>= (λ (found : Option Node). some (is_some found))

    unfoldable pub type_of : Option Node → Option ObjType
    type_of none = some obj_invalid
    type_of (some elm) =
        dom.attribute elm (codes "type") >>= (λ (type : Text). some (obj_type_str_to_int type))

    unfoldable pub obj_type : Text → Option ObjType
    obj_type name = find_object name >>= type_of

    pub find_plugins : Option (List Plugin)
    find_plugins = plugins_from (find_nodes1st_child (codes "Plugins") (dom.children system))

    pub find_sys_devs : Option (List SysDev)
    find_sys_devs = sys_devs_from (find_nodes1st_child (codes "Devices") (dom.children system))

    unfoldable pub find_obj_devs : Text → AttrName → Option (List ObjDev)
    find_obj_devs name attr = do
      obj ← get_object name
      node ← find_attr obj (xml_attr_name attr)
      obj_devs_from obj (children_of node)

    unfoldable pub find_attr_children : Text → AttrName → Option (List Text)
    find_attr_children name attr = do
      obj ← get_object name
      node ← find_attr obj (xml_attr_name attr)
      found ← child_names (children_of node)
      names ← checked obj found
      below ← if no_nodes names then some [] else dom.attribute obj (codes "name")
      some (map (dotted below) names)

    -- `findAttrOp` and `findAttrHz`, by the attribute of the node.
    unfoldable pub text_of : Text → Option Node → Text
    text_of key none = []
    text_of key (some node) = or_empty (dom.attribute node key)

    unfoldable pub find_attr_text : Text → Text → AttrName → Option Text
    find_attr_text key name attr = do
      obj ← get_object name
      node ← find_attr obj (xml_attr_name attr)
      some (text_of key node)

    pub find_attr_op : Text → AttrName → Option Text
    find_attr_op name attr = find_attr_text (codes "op") name attr

    pub find_attr_hz : Text → AttrName → Option Text
    find_attr_hz name attr = find_attr_text (codes "hz") name attr

    unfoldable pub find_children : Text → Option (List Text)
    find_children name = do
      obj ← get_object name
      let nodes = find_nodes1st_child (codes "children") (dom.children obj)
      below ← if no_nodes nodes then some [] else dom.attribute obj (codes "name")
      children_from below nodes

    pub find_obj_type : ObjType → Option (List Text)
    find_obj_type type =
        of_type (obj_type_to_string type)
          (find_nodes1st_child (codes "Objects") (dom.children system))

    -- The loop of `findObjLocation`, which goes up the names: for an object without a location, that
    -- of the object above. `none` is also a name of more parts than the fuel.
    unfoldable pub locate : ℕ → Text → Option Text
    locate zero name = none
    locate (suc fuel) name = do
      elm ← get_object name
      let parent = find_parent name
      let above = if no_names parent then some [] else locate fuel parent
      elim (dom.attribute elm (codes "location")) [ some l ↦ some l | none ↦ above ]

    -- `findObjLocation`: each step drops at least the dot.
    unfoldable pub find_obj_location : Text → Option Text
    find_obj_location name = locate (suc (length name)) name

    unfoldable pub has_server : Text → Option Bool
    has_server name = find_obj_location name >>= (λ (l : Text). some (not (no_names l)))
