-- ===== src/XmlConfig/Schema.antt =====
-- A document that keeps the schema answers every query about an object that it has.
use pwrapi.Prelude.{
  ◌≡◌, inl, inr, refl, sym, subst, Option, none, some, true, false, Bool-cases, List, [], ◌∷◌, All,
  Among, >>=-eq-some, if◌then◌else◌, map, arith, ap, ◌∙◌,
}
use mathlib.Core.Option.{some-injective}
use pwrapi.Prelude.Map.{text_beq, text_beq_iff}
use pwrapi.Chars.{codes, Text}
use pwrapi.Names.{obj_type_str_to_int}
use pwrapi.Names.Attrs.{AttrName, xml_attr_name}
use pwrapi.XmlConfig.{
  Dom, assert, no_nodes, dotted, children_of, find_nodes1st_child, find_with, find_node_with_attr,
  find_dev, find_attr, open_dev, obj_devs_from, child_names, compared, checked, children_from,
  find_object, get_object, text_of, find_attr_text, find_obj_devs, find_attr_children,
  find_children, obj_type, type_of,
}
use pwrapi.XmlConfig.Paths.{find_with-some}

-- A chain returns a value.
abbrev pub Returns : {A : Type 0} → Option A → Type 0
Returns {A} m = (a : A) × (m ≡ some a)

module _ {Node : Type 0} (dom : Dom Node) where
  -- A node has an attribute.
  abbrev pub Has : Text → Node → Type 0
  Has attr n = Returns (dom.attribute n attr)

  abbrev pub part : Text → Node → List Node
  part name obj = find_nodes1st_child dom name (dom.children obj)

  -- A source of an attribute: a device that the object has, or a child, if it has any, or neither.
  pub record IsSource (obj src : Node) : Type 0 where
    pub is_src : text_beq (dom.name src) (codes "src") ≡ true
    pub type : Has (codes "type") src
    pub name : Has (codes "name") src
    pub device :
        dom.attribute src (codes "type") ≡ some (codes "device")
        → (d : Node) × Among d (part (codes "devices") obj)
          × (dom.attribute d (codes "name") ≡ dom.attribute src (codes "name"))
    pub child :
        dom.attribute src (codes "type") ≡ some (codes "child")
        → no_nodes (part (codes "children") obj) ≡ false

  pub record IsAttr (obj attr : Node) : Type 0 where
    pub name : Has (codes "name") attr
    pub sources : All (IsSource obj) (dom.children attr)

  pub record IsDev (dev : Node) : Type 0 where
    pub name : Has (codes "name") dev
    pub device : Has (codes "device") dev
    pub open_string : Has (codes "openString") dev

  pub record IsChild (child : Node) : Type 0 where
    pub is_child : text_beq (dom.name child) (codes "child") ≡ true
    pub name : Has (codes "name") child

  -- The parts of an object.
  pub record IsObject (obj : Node) : Type 0 where
    pub name : Has (codes "name") obj
    pub type : Has (codes "type") obj
    pub attrs : All (IsAttr obj) (part (codes "attributes") obj)
    pub devs : All IsDev (part (codes "devices") obj)
    pub children : All IsChild (part (codes "children") obj)

  All-Among : (P : Node → Type 0) (ns : List Node) (n : Node) → All P ns → Among n ns → P n
  All-Among P [] n all at = absurd at
  All-Among P (m ∷ ns) n (p, all) (inl e) = subst P (sym e) p
  All-Among P (m ∷ ns) n (p, all) (inr at) = All-Among P ns n all at

  find_with-Returns :
      (attr value : Text) (ns : List Node)
      → ((n : Node) → Among n ns → Has attr n)
      → Returns (find_with dom attr value ns)
  unfolding find_with
  find_with-Returns attr value [] has = (none, refl)
  find_with-Returns attr value (n ∷ ns) has =
      let (v, e) = has n (inl refl) in
      let (found, rest) = find_with-Returns attr value ns (λ m at. has m (inr at)) in
      elim (Bool-cases (text_beq value v)) [
        | inl same ↦ (some n, rw (e, same) refl)
        | inr other ↦ (found, rw (e, other) rest)
      ]

  -- A value that is there is found.
  find_with-there :
      (attr value : Text) (ns : List Node) (d : Node)
      → ((n : Node) → Among n ns → Has attr n)
      → Among d ns
      → dom.attribute d attr ≡ some value
      → (n : Node) × (find_with dom attr value ns ≡ some (some n))
  unfolding find_with
  find_with-there attr value [] d has at e = absurd at
  find_with-there attr value (n ∷ ns) d has at e =
      let (v, is_v) = has n (inl refl) in
      elim (Bool-cases (text_beq value v)) [
        | inl same ↦ (n, rw (is_v, same) refl)
        | inr other ↦ elim at [
          | inl here ↦
              let is : v ≡ value =
                some-injective _ _
                  (sym is_v ∙ ap (λ (k : Node). dom.attribute k attr) (sym here) ∙ e) in
              absurd (ground (arith, other, (text_beq_iff value v).1 (sym is)))
          | inr there ↦
              let (m, found) = find_with-there attr value ns d (λ k b. has k (inr b)) there e in
              (m, rw (is_v, other) found)
        ]
      ]

  open_dev-Returns :
      (obj src : Node)
      → IsObject obj
      → IsSource obj src
      → dom.attribute src (codes "type") ≡ some (codes "device")
      → Returns (open_dev dom obj src)
  unfolding open_dev find_dev find_node_with_attr
  open_dev-Returns obj src o s is_dev =
      let devs = part (codes "devices") obj in
      let (name, is_name) = s.name in
      let (d, at, same) = s.device is_dev in
      let (dev, found) =
        find_with-there (codes "name") name devs d (λ n b. (All-Among IsDev devs n o.devs b).name)
          at (same ∙ is_name) in
      let (there, is_named) = find_with-some dom (codes "name") name devs dev found in
      let fits : IsDev dev = All-Among IsDev devs dev o.devs there in
      let (device, is_device) = fits.device in
      let (open_string, is_open) = fits.open_string in
      (
        record { device = device; open_string = open_string },
        rw (is_name, found, is_device, is_open) refl,
      )

  obj_devs_from-Returns :
      (obj : Node) (ns : List Node)
      → IsObject obj
      → All (IsSource obj) ns
      → Returns (obj_devs_from dom obj ns)
  unfolding obj_devs_from assert
  obj_devs_from-Returns obj [] o all = ([], refl)
  obj_devs_from-Returns obj (n ∷ ns) o (s, all) =
      let (devs, rest) = obj_devs_from-Returns obj ns o all in
      let (type, is_type) = s.type in
      elim (Bool-cases (text_beq type (codes "device"))) [
        | inl same ↦
            let is_dev = is_type ∙ ap some ((text_beq_iff type (codes "device")).0 same) in
            let (dev, opened) = open_dev-Returns obj n o s is_dev in
            (dev ∷ devs, rw (s.is_src, is_type, same, opened, rest) refl)
        | inr other ↦ (devs, rw (s.is_src, is_type, other, rest) refl)
      ]

  sources_of :
      (obj : Node) (attr : Text) (found : Option Node)
      → IsObject obj
      → find_with dom (codes "name") attr (part (codes "attributes") obj) ≡ some found
      → All (IsSource obj) (children_of dom found)
  unfolding children_of
  sources_of obj attr none o looked = tt
  sources_of obj attr (some n) o looked =
      let attrs = part (codes "attributes") obj in
      let (there, named) = find_with-some dom (codes "name") attr attrs n looked in
      (All-Among (IsAttr obj) attrs n o.attrs there).sources

  -- What `findAttr` gives is an attribute of the object.
  find_attr-Returns :
      (obj : Node) (attr : Text)
      → IsObject obj
      → (found : Option Node) × (find_attr dom obj attr ≡ some found)
        × All (IsSource obj) (children_of dom found)
  unfolding find_attr find_node_with_attr
  find_attr-Returns obj attr o =
      let attrs = part (codes "attributes") obj in
      let (found, looked) =
        find_with-Returns (codes "name") attr attrs
          (λ n b. (All-Among (IsAttr obj) attrs n o.attrs b).name) in
      (found, looked, sources_of obj attr found o looked)

  child_names-Returns :
      (obj : Node) (ns : List Node) → All (IsSource obj) ns → Returns (child_names dom ns)
  unfolding child_names assert
  child_names-Returns obj [] all = ([], refl)
  child_names-Returns obj (n ∷ ns) (s, all) =
      let (names, rest) = child_names-Returns obj ns all in
      let (type, is_type) = s.type in
      let (name, is_name) = s.name in
      elim (Bool-cases (text_beq type (codes "child"))) [
        | inl same ↦ (name ∷ names, rw (s.is_src, is_type, same, is_name, rest) refl)
        | inr other ↦ (names, rw (s.is_src, is_type, other, rest) refl)
      ]

  -- There are names only where the object has children.
  named_children :
      (obj : Node) (ns : List Node) (names : List Text)
      → All (IsSource obj) ns
      → child_names dom ns ≡ some names
      → no_nodes names ≡ false
      → no_nodes (part (codes "children") obj) ≡ false
  unfolding child_names assert no_nodes
  named_children obj [] names all h some_ = absurd (ground (arith, h, some_))
  named_children obj (n ∷ ns) names (s, all) h some_ =
      let (type, is_type) = s.type in
      elim (Bool-cases (text_beq type (codes "child"))) [
        | inl same ↦ s.child (is_type ∙ ap some ((text_beq_iff type (codes "child")).0 same))
        | inr other ↦ named_children obj ns names all (rw (s.is_src, is_type, other) at h) some_
      ]

  compared-Returns : (ns : List Node) → All IsChild ns → compared dom ns ≡ some ns
  unfolding compared
  compared-Returns [] all = refl
  compared-Returns (n ∷ ns) (c, all) =
      let (name, is_name) = c.name in rw (is_name, compared-Returns ns all) refl

  checked-there :
      (obj : Node) (names : List Text)
      → IsObject obj
      → no_nodes (part (codes "children") obj) ≡ false
      → checked dom obj names ≡ some names
  unfolding checked assert
  checked-there obj [] o there = refl
  checked-there obj (name ∷ names) o there =
      rw
        (
          there,
          compared-Returns (part (codes "children") obj) o.children,
          checked-there obj names o there,
        )
        refl

  checked-Returns :
      (obj : Node) (names : List Text)
      → IsObject obj
      → (no_nodes names ≡ false → no_nodes (part (codes "children") obj) ≡ false)
      → checked dom obj names ≡ some names
  unfolding checked no_nodes
  checked-Returns obj [] o there = refl
  checked-Returns obj (name ∷ names) o there = checked-there obj (name ∷ names) o (there refl)

  -- The name to be put before those of children.
  prefix-Returns :
      {A : Type 0} (obj : Node) (ns : List A)
      → IsObject obj
      → Returns (if no_nodes ns then some [] else dom.attribute obj (codes "name"))
  unfolding no_nodes
  prefix-Returns obj [] o = ([], refl)
  prefix-Returns obj (n ∷ ns) o = o.name

  children_from-Returns :
      (name : Text) (ns : List Node) → All IsChild ns → Returns (children_from dom name ns)
  unfolding children_from assert
  children_from-Returns name [] all = ([], refl)
  children_from-Returns name (n ∷ ns) (c, all) =
      let (child, is_name) = c.name in
      let (rest, more) = children_from-Returns name ns all in
      (dotted name child ∷ rest, rw (c.is_child, is_name, more) refl)

  -- Each object of the document keeps the schema.
  abbrev pub IsDocument : Node → Type 0
  IsDocument system = All IsObject (part (codes "Objects") system)

  module _ (system : Node) where
    found_object :
        (name : Text) (obj : Node)
        → get_object dom system name ≡ some obj
        → find_object dom system name ≡ some (some obj)
    unfolding get_object
    found_object name obj h =
        let (found, looked, is_found) = >>=-eq-some (find_object dom system name) _ h in
        looked ∙ ap some is_found

    get_object-IsObject :
        (name : Text) (obj : Node)
        → IsDocument system
        → get_object dom system name ≡ some obj
        → IsObject obj
    unfolding find_object
    get_object-IsObject name obj doc h =
        let objects = part (codes "Objects") system in
        let (there, named) =
          find_with-some dom (codes "name") name objects obj (found_object name obj h) in
        All-Among IsObject objects obj doc there

    attr_children-Returns :
        (obj : Node) (found : Option Node)
        → IsObject obj
        → All (IsSource obj) (children_of dom found)
        → (names : List Text) × (child_names dom (children_of dom found) ≡ some names)
          × (checked dom obj names ≡ some names)
    attr_children-Returns obj found o all =
        let (names, named) = child_names-Returns obj (children_of dom found) all in
        (
          names,
          named,
          checked-Returns obj names o (named_children obj (children_of dom found) names all named),
        )

    -- In a document that keeps the schema no query about an object that is there faults: its type,
    -- its children, and for each attribute its devices, the children that it comes from, and its
    -- texts.
    pub queries-Returns :
        (name : Text) (obj : Node) (attr : AttrName)
        → IsDocument system
        → get_object dom system name ≡ some obj
        → Returns (obj_type dom system name)
          × Returns (find_children dom system name)
          × Returns (find_obj_devs dom system name attr)
          × Returns (find_attr_children dom system name attr)
          × ((key : Text) → Returns (find_attr_text dom system key name attr))
    unfolding obj_type type_of find_children find_obj_devs find_attr_children find_attr_text
    queries-Returns name obj attr doc found =
        let o = get_object-IsObject name obj doc found in
        let (node, looked, sources) = find_attr-Returns obj (xml_attr_name attr) o in
        let (type, is_type) = o.type in
        let (below, prefix) = prefix-Returns obj (part (codes "children") obj) o in
        let (cs, children) = children_from-Returns below (part (codes "children") obj) o.children in
        let (devs, opened) = obj_devs_from-Returns obj (children_of dom node) o sources in
        let (names, named, all) = attr_children-Returns obj node o sources in
        let (above, prefix') = prefix-Returns obj names o in
        (
          (obj_type_str_to_int type, rw (found_object name obj found, is_type) refl),
          (cs, rw (found, prefix) children),
          (devs, rw (found, looked) opened),
          (map (dotted above) names, rw (found, looked, named, all, prefix') refl),
          λ key. (text_of dom system key node, rw (found, looked) refl),
        )
