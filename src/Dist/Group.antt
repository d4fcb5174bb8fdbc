-- ===== src/Dist/Group.antt =====
-- src/pwr/distGroup.cc, distGroup.h and distGrpComm.cc: a group of objects of this node and of
-- others. The caller's two arrays have a row of as many entries as there are attributes for each
-- object.
pub mod Add
pub mod Rows
use pwrapi.Prelude.{
  ℕ, zero, suc, ◌+◌, ◌*◌, Option, none, some, Bool, true, false, List, [], ◌∷◌, ◌++◌, ◌==◌, ◌||◌,
  map, length, leb, take, drop, if◌then◌else◌, ◌>>=◌, ◌>>◌,
}
use pwrapi.Prelude.Int.{ℤ, eq_ℤ}
use pwrapi.Prelude.Map.{Eq, nat_eq, lookup, insert, erase}
use pwrapi.Objects.{success, failure, ret_status, Status, DeviceOps, Slot}
use pwrapi.Events.{CommEvent, CommCreateEvent, EventType, comm_create, Text}
use pwrapi.Events.Message.{Message, create}
use pwrapi.Dist.{Kind, dist_get, dist_set, DistComm, DistRequest, Ctx}
use pwrapi.Dist.Request.{new_request, wait}
use pwrapi.Dist.Comm.{noop, new_comm_id, comm_event, send, get_values, set_values, insert_req}
use pwrapi.Dist.Object.{
  DistObject, is_set, put, code_of, names_of, values_of, stamps_of, close_request, open_request,
}
use pwrapi.Dist.Object.Sync.{attr_get_values_sync, attr_set_values_sync}

-- An object of a group: `comm` is its `m_comm`.
pub record Member (Dev : Type 0) : Type 0 where
  pub object : DistObject Dev
  pub comm : Option ℕ

-- `m_list`, `m_distObjs`, `m_allObjs` and `m_comm`.
pub record DistGrp (Dev : Type 0) : Type 0 where
  pub locals : List (Member Dev)
  pub remotes : List (Member Dev)
  pub all : List (Member Dev)
  pub comm : Option ℕ

module _ {Dev : Type 0} where
  -- The search for an object among others.
  unfoldable pub has_member : ℕ → List (Member Dev) → Bool
  has_member id [] = false
  has_member id (m ∷ ms) = let rest = has_member id ms in if m.object.id == id then true else rest

  -- `Grp::add` of a local object, whose result is not looked at.
  unfoldable pub add_local : Member Dev → DistGrp Dev → DistGrp Dev
  add_local m g =
      if has_member m.object.id g.locals then g else record g { locals = g.locals ++ m ∷ [] }

  abbrev push_all : Member Dev → DistGrp Dev → DistGrp Dev
  push_all m g = record g { all = g.all ++ m ∷ [] }

  -- `DistGrp::add`.
  unfoldable pub add_member : Member Dev → DistGrp Dev → ℤ × DistGrp Dev
  unfolding add_local has_member
  add_member m g =
      if is_set m.comm
      then (if has_member m.object.id g.remotes
          then (failure, g)
          else (success, push_all m (record g { remotes = g.remotes ++ m ∷ [] })))
      else (success, push_all m (add_local m g))

  -- `distReq.value[i]`: the i-th remote object's row is the i-th of the arrays, if the object is
  -- among all of them.
  unfoldable pub row_pointers : ℕ → ℕ → List (Member Dev) → List (Member Dev) → List (Option ℕ)
  row_pointers i num [] all = []
  row_pointers i num (m ∷ ms) all =
      (if has_member m.object.id all then some i else none) ∷ row_pointers (i + num) num ms all

  -- The members of the event that `DistGrpComm` sends.
  unfoldable pub group_members : List (Member Dev) → Ctx → Option (List (List Text))
  group_members [] ctx = some []
  group_members (m ∷ ms) ctx = do
    a ← m.comm
    c ← lookup a ctx.comms
    rest ← group_members ms ctx
    some (c.objects ∷ rest)

  -- `new DistGrpComm( ctx, m_distObjs )`, with the next of the communicators' numbers.
  unfoldable pub new_grp_comm : ℕ → ℕ → List (Member Dev) → Ctx → Option (ℕ × ℕ × Ctx)
  new_grp_comm tid current ms ctx = do
    members ← group_members ms ctx
    let (id, current') = new_comm_id tid current
    let c : DistComm = record { comm_id = id; objects = []; opened = true }
    let ev = create (record { comm = comm_event comm_create 0 id noop; members = members })
    some (
      ctx.next,
      current',
      send ev (record ctx { comms = insert ctx.next c ctx.comms; next = suc ctx.next }),
    )

  -- `if ( ! m_comm ) m_comm = new DistGrpComm`.
  unfoldable pub grp_comm : ℕ → ℕ → DistGrp Dev → Ctx → Option (ℕ × ℕ × DistGrp Dev × Ctx)
  grp_comm tid current g ctx = elim g.comm [
    | some c ↦ some (c, current, g, ctx)
    | none ↦
        new_grp_comm tid current g.remotes ctx
        >>= (λ (r : ℕ × ℕ × Ctx). some (r.0, r.1, record g { comm = some r.0 }, r.2))
  ]

  unfoldable pub first_member : List (Member Dev) → Option (Member Dev)
  first_member [] = none
  first_member (m ∷ ms) = some m

-- The slots of a row of the two arrays.
unfoldable pub slots_of : List ℕ → List ℕ → List ℕ → List Slot
slots_of [] vs ts = []
slots_of (n ∷ names) [] ts = []
slots_of (n ∷ names) (v ∷ vs) [] = []
slots_of (n ∷ names) (v ∷ vs) (t ∷ ts) =
    record { name = n; value = v; stamp = t } ∷ slots_of names vs ts

-- Rows written over the entries from a place on.
unfoldable pub over : ℕ → List ℕ → List ℕ → List ℕ
over i row xs = take i xs ++ (row ++ drop (i + length row) xs)

-- A code that ends the loop over the local objects.
unfoldable pub is_bad : ℤ → Bool
is_bad rc = if eq_ℤ rc success then false else (if eq_ℤ rc ret_status then false else true)

-- The caller's arrays, the status, the events that are still to come, the context and the machine.
pub record Run (World : Type 0) : Type 0 where
  pub values : List ℕ
  pub times : List ℕ
  pub status : Status
  pub events : List Message
  pub ctx : Ctx
  pub world : World

module _ {World Dev : Type 0} (ops : DeviceOps World Dev) (get_obj : Text → ℕ) (unset : ℕ) where
  -- The loop of `DistGrp::attrGetValues` over the local objects; the code is that which ended it.
  unfoldable pub get_locals :
      ℕ → List ℕ → List (Member Dev) → Run World → Option (Option ℤ × Run World)
  get_locals i names [] s = some (none, s)
  get_locals i names (m ∷ ms) s = do
    let n = length names
    let slots = slots_of names (take n (drop i s.values)) (take n (drop i s.times))
    if length slots == n then some tt else none
    ((rc, slots', st), evs, ctx, w) ←
        attr_get_values_sync ops get_obj unset m.object slots s.status s.events s.ctx s.world
    let s' : Run World = record {
      values = over i (values_of slots') s.values;
      times = over i (stamps_of slots') s.times;
      status = st;
      events = evs;
      ctx = ctx;
      world = w;
    }
    let rest = get_locals (i + n) names ms s'
    if is_bad rc then some (some rc, s') else rest

  -- The request to the remote objects of `DistGrp::attrGetValues`; the code of the wait is not looked
  -- at.
  unfoldable pub get_remotes :
      ℕ → ℕ → List ℕ → DistGrp Dev → Run World → Option (ℕ × DistGrp Dev × Run World)
  get_remotes tid current names g s = do
    first ← first_member g.remotes
    let (a, ctx₀) = open_request s.status s.ctx
    (c, current', g', ctx₁) ← grp_comm tid current g ctx₀
    let r : DistRequest = record (new_request s.status false) {
      rows = row_pointers 0 (length names) g.remotes g.all;
      values = s.values;
      times = s.times;
    }
    (id, ctx₂) ← insert_req dist_get a (put a r ctx₁)
    ctx₃ ← get_values c names (map first.object.value_op names) id ctx₂
    (ret, evs, ctx₄) ← wait get_obj a s.events ctx₃
    r' ← lookup a ctx₄.requests
    some (
      current',
      g',
      record s {
        values = r'.values;
        times = r'.times;
        status = r'.status;
        events = evs;
        ctx = close_request a (record ctx₄ { comm_reqs = erase id ctx₄.comm_reqs });
      },
    )

  unfoldable pub after_get :
      ℕ → ℕ → List ℕ → DistGrp Dev → Option ℤ × Run World → Option (ℤ × ℕ × DistGrp Dev × Run World)
  after_get tid current names g (some rc, s) = some (rc, current, g, s)
  after_get tid current names g (none, s) =
      let asked = get_remotes tid current names g s in
      elim g.remotes [
        | [] ↦ some (code_of s.status, current, g, s)
        | m ∷ ms ↦
            asked
            >>= (λ (r : ℕ × DistGrp Dev × Run World). some (code_of r.2.status, r.0, r.1, r.2))
      ]

  -- `DistGrp::attrGetValues`: the code, the next number of a communicator, the group and the rest.
  unfoldable pub grp_get_values :
      ℕ → ℕ → List ℕ → DistGrp Dev → Run World → Option (ℤ × ℕ × DistGrp Dev × Run World)
  grp_get_values tid current names g s =
      get_locals 0 names g.locals s >>= after_get tid current names g

  -- The loop of `DistGrp::attrSetValues`: every local object is given the same values.
  unfoldable pub set_locals :
      List Slot → List (Member Dev) → Run World → Option (Option ℤ × Run World)
  set_locals slots [] s = some (none, s)
  set_locals slots (m ∷ ms) s = do
    ((rc, st), evs, ctx, w) ←
        attr_set_values_sync ops get_obj unset m.object slots s.status s.events s.ctx s.world
    let s' : Run World = record s { status = st; events = evs; ctx = ctx; world = w }
    let rest = set_locals slots ms s'
    if is_bad rc then some (some rc, s') else rest

  -- The request to the remote objects of `DistGrp::attrSetValues`.
  unfoldable pub set_remotes :
      ℕ → ℕ → List Slot → DistGrp Dev → Run World → Option (ℕ × DistGrp Dev × Run World)
  set_remotes tid current slots g s = do
    let (a, ctx₀) = open_request s.status s.ctx
    (c, current', g', ctx₁) ← grp_comm tid current g ctx₀
    (id, ctx₂) ← insert_req dist_set a ctx₁
    ctx₃ ← set_values unset c (names_of slots) (values_of slots) id ctx₂
    (ret, evs, ctx₄) ← wait get_obj a s.events ctx₃
    r' ← lookup a ctx₄.requests
    some (current', g', record s { status = r'.status; events = evs; ctx = close_request a ctx₄ })

  unfoldable pub after_set :
      ℕ
      → ℕ
      → List Slot
      → DistGrp Dev
      → Option ℤ × Run World
      → Option (ℤ × ℕ × DistGrp Dev × Run World)
  after_set tid current slots g (some rc, s) = some (rc, current, g, s)
  after_set tid current slots g (none, s) =
      let asked = set_remotes tid current slots g s in
      elim g.remotes [
        | [] ↦ some (code_of s.status, current, g, s)
        | m ∷ ms ↦
            asked
            >>= (λ (r : ℕ × DistGrp Dev × Run World). some (code_of r.2.status, r.0, r.1, r.2))
      ]

  -- `DistGrp::attrSetValues`.
  unfoldable pub grp_set_values :
      ℕ → ℕ → List Slot → DistGrp Dev → Run World → Option (ℤ × ℕ × DistGrp Dev × Run World)
  grp_set_values tid current slots g s =
      set_locals slots g.locals s >>= after_set tid current slots g

  -- `DistGrp::attrGetValue` and `DistGrp::attrSetValue`.
  unfoldable pub grp_get_value :
      ℕ → ℕ → ℕ → DistGrp Dev → Run World → Option (ℤ × ℕ × DistGrp Dev × Run World)
  grp_get_value tid current name g s = grp_get_values tid current (name ∷ []) g s

  unfoldable pub grp_set_value :
      ℕ → ℕ → Slot → DistGrp Dev → Run World → Option (ℤ × ℕ × DistGrp Dev × Run World)
  grp_set_value tid current slot g s = grp_set_values tid current (slot ∷ []) g s
