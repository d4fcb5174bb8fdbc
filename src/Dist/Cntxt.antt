-- ===== src/Dist/Cntxt.antt =====
-- src/pwr/distCntxt.cc: where the attributes of an object are served. `traverse` goes down the tree
-- of objects, up to those that other servers have, and opens the devices on the way. The
-- configuration is the interface of src/pwr/config.h.
pub mod Traverse
pub mod Ends
use pwrapi.Prelude.{
  ℕ, zero, suc, Option, none, some, Bool, true, false, not, ◌&&◌, ◌||◌, List, [], ◌∷◌, ◌++◌, ◌==◌,
  ltb, if◌then◌else◌, ◌>>=◌,
}
use pwrapi.Prelude.Map.{Eq, nat_eq, text_eq, text_beq, lookup, insert}
use pwrapi.Events.{Text}
use pwrapi.Dist.{DistComm, Ctx}
use pwrapi.Dist.Comm.{new_comm}

pub record ObjDev : Type 0 where
  pub device : Text
  pub open_string : Text

pub record SysDev : Type 0 where
  pub name : Text
  pub plugin : Text
  pub init_string : Text

-- What is used of `Config`.
pub record Config : Type 0 where
  pub has_server : Text → Bool
  pub find_obj_devs : Text → ℕ → List ObjDev
  pub find_attr_children : Text → ℕ → List Text
  pub find_attr_op : Text → ℕ → Text
  pub find_attr_type : Text → ℕ → Text
  pub find_sys_devs : List SysDev

-- `m_devMap`, the operations of each initialised device; `m_deviceMap`, the open devices of each; the
-- address of the next; and the arguments `local` and `remote` of `traverse`.
pub record Found : Type 0 where
  pub dev_map : List (Text × ℕ)
  pub device_map : List (ℕ × List (Text × ℕ))
  pub next : ℕ
  pub local_devs : List ℕ
  pub remote : List Text

-- `<` of `std::string`.
unfoldable pub text_lt : Text → Text → Bool
text_lt [] [] = false
text_lt [] (b ∷ t) = true
text_lt (a ∷ s) [] = false
text_lt (a ∷ s) (b ∷ t) = ltb a b || (a == b) && text_lt s t

-- `std::set::insert`.
unfoldable pub insert_name : Text → List Text → List Text
insert_name x [] = x ∷ []
insert_name x (y ∷ ys) =
    let rest = insert_name x ys in
    if text_beq x y then y ∷ ys else (if text_lt x y then x ∷ y ∷ ys else y ∷ rest)

-- `traverse` of each child, as the source's loop does.
unfoldable pub each : (Text → Found → Option Found) → List Text → Found → Option Found
each step [] st = some st
each step (x ∷ xs) st = step x st >>= each step xs

-- The entries of `m_deviceMap[ops]`.
unfoldable pub entries : Option (List (Text × ℕ)) → List (Text × ℕ)
entries none = []
entries (some m) = m

-- `new Device( ops, openString )`, unless it is there.
unfoldable pub open_at : Option ℕ → ℕ → Text → Found → ℕ × Found
open_at (some d) ops name st = (d, st)
open_at none ops name st = (
  st.next,
  record st {
    device_map =
        insert ops (insert name st.next (entries (lookup ops st.device_map))) st.device_map;
    next = suc st.next;
  },
)

-- The plugins are libraries: `init` gives the operations that a plugin's `init` gives for a text.
module _ (cfg : Config) (init : Text → Text → Option ℕ) where
  -- The loop of `initDevice`, and its assertion.
  unfoldable pub init_device : Text → List SysDev → Found → Option (ℕ × Found)
  init_device name [] st = none
  init_device name (dev ∷ devs) st =
      let rest = init_device name devs st in
      let made =
        init dev.plugin dev.init_string
        >>= (λ (ops : ℕ). some (ops, record st { dev_map = insert dev.name ops st.dev_map })) in
      if text_beq name dev.name then made else rest

  -- `m_devMap[dev.device].second`, which is initialised if it is not there.
  unfoldable pub dev_ops : Option ℕ → Text → Found → Option (ℕ × Found)
  dev_ops (some ops) name st = some (ops, st)
  dev_ops none name st = init_device name cfg.find_sys_devs st

  -- One device of an object.
  unfoldable pub add_dev : ObjDev → Found → Option Found
  add_dev dev st = do
    (ops, st₁) ← dev_ops (lookup dev.device st.dev_map) dev.device st
    let at = lookup dev.open_string (entries (lookup ops st₁.device_map))
    let (d, st₂) = open_at at ops dev.open_string st₁
    some (record st₂ { local_devs = st₂.local_devs ++ d ∷ [] })

  unfoldable pub add_devs : List ObjDev → Found → Option Found
  add_devs [] st = some st
  add_devs (dev ∷ devs) st = add_dev dev st >>= add_devs devs

  -- The object is another server's.
  unfoldable pub is_remote : Text → Text → Bool
  is_remote root name = cfg.has_server name && not (text_beq name root)

  -- `DistCntxt::traverse`, to a depth. `none` is also a tree that is deeper.
  unfoldable pub traverse : ℕ → Text → ℕ → Text → Found → Option Found
  traverse zero root attr name st = none
  traverse (suc depth) root attr name st =
      let down =
        add_devs (cfg.find_obj_devs name attr) st
        >>= each (traverse depth root attr) (cfg.find_attr_children name attr) in
      if is_remote root name then some (record st { remote = insert_name name st.remote }) else down

-- `ValueOp`.
abbrev pub no_op : ℕ
no_op = 0

abbrev pub fp_add : ℕ
fp_add = 1

abbrev pub int_add : ℕ
int_add = 2

abbrev pub fp_avg : ℕ
fp_avg = 3

abbrev pub int_avg : ℕ
int_avg = 4

abbrev sum_text : Text
sum_text = b'S' ∷ b'U' ∷ b'M' ∷ []

abbrev avg_text : Text
avg_text = b'A' ∷ b'V' ∷ b'G' ∷ []

abbrev float_text : Text
float_text = b'F' ∷ b'l' ∷ b'o' ∷ b'a' ∷ b't' ∷ []

abbrev integer_text : Text
integer_text = b'I' ∷ b'n' ∷ b't' ∷ b'e' ∷ b'g' ∷ b'e' ∷ b'r' ∷ []

-- The operation of an attribute, by the texts of its operation and its type; the assertion on the
-- type is `none`.
unfoldable pub value_op : Text → Text → Option ℕ
value_op op type =
    let typed = λ (float integer : ℕ).
      if text_beq type float_text
      then some float
      else (if text_beq type integer_text then some integer else none) in
    if text_beq op sum_text
    then typed fp_add int_add
    else (if text_beq op avg_text then typed fp_avg int_avg else some no_op)

-- `==` of `std::set<std::string>`.
unfoldable pub names_beq : List Text → List Text → Bool
names_beq [] [] = true
names_beq [] (y ∷ ys) = false
names_beq (x ∷ xs) [] = false
names_beq (x ∷ xs) (y ∷ ys) = text_beq x y && names_beq xs ys

-- `m_commMap.find( objects )`.
unfoldable pub find_comm_of : List Text → List (List Text × ℕ) → Option ℕ
find_comm_of names [] = none
find_comm_of names ((key, c) ∷ m) =
    let rest = find_comm_of names m in if names_beq key names then some c else rest

-- `getCommunicator`: the address, the map, the next number of a communicator and the context.
unfoldable pub comm_at :
    Option ℕ → ℕ → ℕ → List Text → List (List Text × ℕ) → Ctx → ℕ × List (List Text × ℕ) × ℕ × Ctx
comm_at (some c) tid current names m ctx = (c, m, current, ctx)
comm_at none tid current names m ctx =
    let (comm, current') = new_comm tid current names in
    (
      ctx.next,
      (names, ctx.next) ∷ m,
      current',
      record ctx { comms = insert ctx.next comm ctx.comms; next = suc ctx.next },
    )

unfoldable pub get_communicator :
    ℕ → ℕ → List Text → List (List Text × ℕ) → Ctx → ℕ × List (List Text × ℕ) × ℕ × Ctx
get_communicator tid current names m ctx = comm_at (find_comm_of names m) tid current names m ctx

-- What `initAttr` puts into an `AttrInfo`.
pub record AttrPlace : Type 0 where
  pub op : ℕ
  pub devices : List ℕ
  pub comm : Option ℕ

-- What `initAttr` works on: the devices, `m_commMap`, the next number of a communicator and the
-- context.
pub record Cntxt : Type 0 where
  pub found : Found
  pub comm_map : List (List Text × ℕ)
  pub current : ℕ
  pub ctx : Ctx

-- The communicator of the remote objects, if there are any.
unfoldable pub remote_comm : ℕ → List Text → Cntxt → Option ℕ × Cntxt
remote_comm tid [] st = (none, st)
remote_comm tid (x ∷ xs) st =
    let (c, m, current, ctx) = get_communicator tid st.current (x ∷ xs) st.comm_map st.ctx in
    (some c, record st { comm_map = m; current = current; ctx = ctx })

-- `DistCntxt::initAttr`, for the thread `tid` and a tree of a depth.
unfoldable pub init_attr :
    (cfg : Config) (init : Text → Text → Option ℕ) (depth tid : ℕ) (root name : Text) (attr : ℕ)
    → Cntxt
    → Option (AttrPlace × Cntxt)
init_attr cfg init depth tid root name attr st = do
  op ← value_op (cfg.find_attr_op name attr) (cfg.find_attr_type name attr)
  let clean : Found = record st.found { local_devs = []; remote = [] }
  let served = traverse cfg init depth root attr name clean >>= (λ (found : Found).
      let (c, st') = remote_comm tid found.remote (record st { found = found }) in
      some (record { op = op; devices = found.local_devs; comm = c }, st'))
  if op == no_op then some (record { op = op; devices = []; comm = none }, st) else served

-- `sumOp`, `avgOp` and `timeOp`, over the machine's doubles.
unfoldable pub sum_op : (ℕ → ℕ → ℕ) → ℕ → List ℕ → ℕ
sum_op add total [] = total
sum_op add total (x ∷ xs) = sum_op add (add total x) xs

unfoldable pub avg_op : (ℕ → ℕ → ℕ) → (ℕ → ℕ → ℕ) → ℕ → List ℕ → ℕ
avg_op add divide num xs = divide (sum_op add 0 xs) num

unfoldable pub time_op : List ℕ → Option ℕ
time_op [] = none
time_op (t ∷ ts) = some t
