-- ===== src/Tests/Xml.antt =====
-- A document with a node, which has a location, a device and a socket.
use pwrapi.Prelude.{
  ◌≡◌, ◌↔◌, refl, sym, ap, ◌∙◌, subst, Option, some, List, [], ◌∷◌, inl, inr, arith,
}
use mathlib.Core.Option.{some-injective}
use pwrapi.Prelude.Map.{text_eq, lookup}
use pwrapi.Chars.{codes, Text, find_last_from}
use pwrapi.Chars.Fields.{Without}
use pwrapi.Names.Attrs.{attr_power, xml_attr_name}
use pwrapi.Context.{no_names}
use pwrapi.XmlConfig.{
  Dom, find_parent, assert, no_nodes, find_node, children_of, find_nodes1st_child, find_with,
  find_node_with_attr, find_dev, find_attr, find_object, get_object, children_from, find_children,
  locate, find_obj_location, open_dev, obj_devs_from, find_obj_devs, find_attr_children, obj_type,
  find_attr_text,
}
use pwrapi.XmlConfig.Paths.{PlainNames, find_parent-find_children}
use pwrapi.XmlConfig.Location.{IsAt, find_obj_location-IsAt}
use pwrapi.XmlConfig.Schema.{Returns, IsSource, IsObject, IsDocument, queries-Returns}

mutual
  data Xml : Type 0 where
    element : Text → List (Text × Text) → Xmls → Xml

  data Xmls : Type 0 where
    nil : Xmls
    cons : Xml → Xmls → Xmls

abbrev all_of : Xmls → List Xml
all_of nil = []
all_of (cons x xs) = x ∷ all_of xs

abbrev name_of : Xml → Text
name_of (element name attrs xs) = name

abbrev attr_of : Xml → Text → Option Text
attr_of (element name attrs xs) key = lookup key attrs

abbrev below : Xml → List Xml
below (element name attrs xs) = all_of xs

abbrev dom : Dom Xml
dom = record { name = name_of; attribute = attr_of; children = below }

abbrev node : Text
node = codes "n"

abbrev dev : Xml
dev =
    element (codes "dev")
      ((codes "name", codes "d")
        ∷ (codes "device", codes "rapl")
        ∷ (codes "openString", codes "0")
        ∷ [])
      nil

abbrev child : Xml
child = element (codes "child") ((codes "name", codes "s") ∷ []) nil

abbrev from_dev : Xml
from_dev =
    element (codes "src") ((codes "type", codes "device") ∷ (codes "name", codes "d") ∷ []) nil

abbrev from_child : Xml
from_child =
    element (codes "src") ((codes "type", codes "child") ∷ (codes "name", codes "s") ∷ []) nil

abbrev power : Xml
power =
    element (codes "attr") ((codes "name", codes "POWER") ∷ (codes "op", codes "SUM") ∷ [])
      (cons from_dev (cons from_child nil))

abbrev node_elm : Xml
node_elm =
    element (codes "obj")
      ((codes "name", node) ∷ (codes "type", codes "Node") ∷ (codes "location", codes "host") ∷ [])
      (cons (element (codes "attributes") [] (cons power nil)) (
        cons (element (codes "devices") [] (cons dev nil))
          (cons (element (codes "children") [] (cons child nil)) nil)))

abbrev socket_elm : Xml
socket_elm =
    element (codes "obj") ((codes "name", codes "n.s") ∷ (codes "type", codes "Socket") ∷ []) nil

abbrev system : Xml
system =
    element (codes "System") []
      (cons (element (codes "Objects") [] (cons node_elm (cons socket_elm nil))) nil)

found_node : get_object dom system node ≡ some node_elm
unfolding get_object find_object find_with find_nodes1st_child find_node children_of lookup
found_node = refl

sources :
    find_obj_devs dom system node attr_power
    ≡ some (record { device = codes "rapl"; open_string = codes "0" } ∷ [])
unfolding get_object find_object find_with find_nodes1st_child find_node children_of find_obj_devs
    find_attr find_node_with_attr xml_attr_name obj_devs_from open_dev find_dev assert lookup
sources = refl

children_named : find_children dom system node ≡ some (codes "n.s" ∷ [])
unfolding get_object find_object find_with find_nodes1st_child find_node children_of find_children
    children_from no_nodes assert lookup
children_named = refl

plain : PlainNames dom (child ∷ [])
unfolding lookup
plain n x (inl e) named =
    let s : codes "s" ≡ x =
      some-injective _ _ (ap (λ m. attr_of m (codes "name")) (sym e) ∙ named) in
    subst (Without b'.') s (omega arith)
plain n x (inr h) named = absurd h

nodes_plain : PlainNames dom (find_nodes1st_child dom (codes "children") (below node_elm))
unfolding find_nodes1st_child find_node children_of
nodes_plain = plain

find_parent-find_children_example : find_parent (codes "n.s") ≡ node
find_parent-find_children_example =
    find_parent-find_children dom system node node_elm (codes "n.s" ∷ []) found_node nodes_plain
      (omega arith) children_named (codes "n.s") (inl refl)

find_obj_location-IsAt_example :
    (find_obj_location dom system (codes "n.s") ≡ some (codes "host"))
    ↔ IsAt dom system (codes "n.s") (codes "host")
find_obj_location-IsAt_example = find_obj_location-IsAt dom system (codes "n.s") (codes "host")

-- A socket is where its node is.
inherits : find_obj_location dom system (codes "n.s") ≡ some (codes "host")
unfolding find_obj_location locate get_object find_object find_with find_nodes1st_child find_node
    children_of find_parent find_last_from no_names lookup
inherits = refl

dev-IsSource : IsSource dom node_elm from_dev
unfolding find_nodes1st_child find_node children_of lookup no_nodes
dev-IsSource = record {
  is_src = refl;
  type = (codes "device", refl);
  name = (codes "d", refl);
  device = λ e. (dev, inl refl, refl);
  child = λ e. refl;
}

child-IsSource : IsSource dom node_elm from_child
unfolding find_nodes1st_child find_node children_of lookup no_nodes
child-IsSource = record {
  is_src = refl;
  type = (codes "child", refl);
  name = (codes "s", refl);
  device = λ e. (dev, inl refl, absurd (ground (arith, e)));
  child = λ e. refl;
}

node-IsObject : IsObject dom node_elm
unfolding find_nodes1st_child find_node children_of lookup
node-IsObject = record {
  name = (node, refl);
  type = (codes "Node", refl);
  attrs =
      (record { name = (codes "POWER", refl); sources = (dev-IsSource, (child-IsSource, tt)) }, tt);
  devs = (
    record {
      name = (codes "d", refl);
      device = (codes "rapl", refl);
      open_string = (codes "0", refl);
    },
    tt,
  );
  children = (record { is_child = refl; name = (codes "s", refl) }, tt);
}

socket-IsObject : IsObject dom socket_elm
unfolding find_nodes1st_child find_node children_of lookup
socket-IsObject = record {
  name = (codes "n.s", refl);
  type = (codes "Socket", refl);
  attrs = tt;
  devs = tt;
  children = tt;
}

document : IsDocument dom system
unfolding find_nodes1st_child find_node children_of
document = (node-IsObject, (socket-IsObject, tt))

queries-Returns_example :
    Returns (obj_type dom system node)
    × Returns (find_children dom system node)
    × Returns (find_obj_devs dom system node attr_power)
    × Returns (find_attr_children dom system node attr_power)
    × ((key : Text) → Returns (find_attr_text dom system key node attr_power))
queries-Returns_example = queries-Returns dom system node node_elm attr_power document found_node
