-- ===== src/Dist/Group/Rows.antt =====
-- Where the values of the remote objects of a group are written.
use pwrapi.Prelude.{
  ℕ, suc, ◌+◌, ◌≡◌, refl, ap, ◌∙◌, Option, some, true, false, List, [], ◌∷◌, ◌++◌, ==_self, length,
  map, All, arith,
}
use pwrapi.Prelude.Map.{nat_eq, lookup, erase, lookup-insert_self}
use pwrapi.Objects.{success, Status, DeviceOps}
use pwrapi.Events.{Text}
use pwrapi.Events.Responses.{CommRespEvent}
use pwrapi.Events.Message.{Message, resp}
use pwrapi.Dist.{dist_get, DistComm, DistRequest, Ctx}
use pwrapi.Dist.Request.{new_request, note_errors, write_rows, wait}
use pwrapi.Dist.Request.Rows.{pointers, concat, Alike, write_rows-concat}
use pwrapi.Dist.Request.One.{wait-get, get_value-rows}
use pwrapi.Dist.Comm.{get_event, get_values}
use pwrapi.Dist.Comm.Sent.{send_on-kept}
use pwrapi.Dist.Object.{put, open_request, close_request}
use pwrapi.Dist.Object.Remote.{insert_req-inserted, inserted}
use pwrapi.Dist.Group.{
  Member, DistGrp, Run, has_member, row_pointers, grp_comm, first_member, get_remotes,
}
use pwrapi.Dist.Group.Add.{IsSplit}

module _ {Dev : Type 0} where
  has_member-All :
      (ms sup : List (Member Dev))
      → ((id : ℕ) → has_member id ms ≡ true → has_member id sup ≡ true)
      → All (λ m. has_member m.object.id sup ≡ true) ms
  unfolding has_member
  has_member-All [] sup f = tt
  has_member-All (m ∷ ms) sup f = (
    f m.object.id (rw (==_self m.object.id) refl),
    has_member-All ms sup (λ id h. f id (ground (arith, h))),
  )

  row_pointers-pointers :
      (i num : ℕ) (ms all : List (Member Dev))
      → All (λ m. has_member m.object.id all ≡ true) ms
      → row_pointers i num ms all ≡ pointers i num (length ms)
  unfolding row_pointers pointers
  row_pointers-pointers i num [] all h = refl
  row_pointers-pointers i num (m ∷ ms) all (p, h) = rw (p) (
      ap (λ (rest : List (Option ℕ)). some i ∷ rest) (row_pointers-pointers (i + num) num ms all h))

  remote_pointers :
      (g : DistGrp Dev) (num : ℕ)
      → IsSplit g
      → row_pointers 0 num g.remotes g.all ≡ pointers 0 num (length g.remotes)
  remote_pointers g num split =
      row_pointers-pointers 0 num g.remotes g.all
        (has_member-All g.remotes g.all (λ id h. ground (arith, split.whole id, h)))

  grp_comm-known :
      (tid current : ℕ) (g : DistGrp Dev) (c : ℕ) (ctx : Ctx)
      → g.comm ≡ some c
      → grp_comm tid current g ctx ≡ some (c, current, g, ctx)
  unfolding grp_comm
  grp_comm-known tid current g c ctx known = ground (arith, known)

module _ {World Dev : Type 0} (ops : DeviceOps World Dev) (get_obj : Text → ℕ) (unset : ℕ) where
  -- The rows of the remote objects are written to the first rows of the caller's arrays, in the order
  -- of the remote objects and whatever objects of this node the rows belong to, and nothing behind
  -- them is written: in a group whose objects are split, with a communicator, when the response comes
  -- next and has a row of as many values and times for each remote object.
  pub get_remotes-rows :
      (tid current : ℕ) (names : List ℕ) (g : DistGrp Dev) (s : Run World) (m : Member Dev)
      (rest : List (Member Dev)) (c : ℕ) (comm : DistComm) (ev : CommRespEvent) (ms : List Message)
      (vss tss olds olds' : List (List ℕ)) (post post' : List ℕ) (st : Status)
      → IsSplit g
      → g.remotes ≡ m ∷ rest
      → g.comm ≡ some c
      → lookup c s.ctx.comms ≡ some comm
      → s.events ≡ resp ev ∷ ms
      → ev.comm.event.id ≡ suc s.ctx.next
      → ev.value ≡ vss
      → ev.time_stamp ≡ tss
      → length vss ≡ length g.remotes
      → Alike (length names) vss tss olds olds'
      → s.values ≡ concat olds ++ post
      → s.times ≡ concat olds' ++ post'
      → note_errors get_obj ev.err_obj ev.err_attr ev.err_value s.status ≡ some st
      → (ctx' : Ctx) × (get_remotes ops get_obj unset tid current names g s
          ≡ some (
            current,
            g,
            record s {
              values = concat vss ++ post;
              times = concat tss ++ post';
              status = st;
              events = ms;
              ctx = ctx';
            },
          ))
  unfolding get_remotes first_member get_values new_request
  get_remotes-rows tid current names g s m rest c comm ev ms vss tss olds olds' post post' st split
        remotes known at events id value stamp rows alike values times errors =
      let a : ℕ = s.ctx.next in
      let r : DistRequest = record (new_request s.status false) {
        rows = row_pointers 0 (length names) g.remotes g.all;
        values = s.values;
        times = s.times;
      } in
      let ctx₁ : Ctx = put a r (open_request s.status s.ctx).1 in
      let r₁ : DistRequest = record r { comm_reqs = suc a ∷ [] } in
      let (ctx₂, on, requests, parts, sent) =
        send_on-kept c (get_event names (map m.object.value_op names) (suc a)) comm
          (inserted dist_get a r ctx₁) at in
      let written : write_rows r₁.rows ev.value ev.time_stamp (r₁.values, r₁.times)
          ≡ some (concat vss ++ post, concat tss ++ post') =
        rw (remote_pointers g (length names) split, value, stamp, ← rows, values, times)
          (write_rows-concat (length names) 0 vss tss olds olds' [] [] post post' alike refl
            refl) in
      let (ctx₃, waited, at₃, sent₃) =
        wait-get get_obj a (suc a) ev ms ctx₂ r₁ _
          (ap (lookup a) requests ∙ lookup-insert_self a _ _) refl
          (ap (lookup (suc a)) parts ∙ lookup-insert_self (suc a) _ _) id
          (get_value-rows get_obj (suc a) ev r₁ _ _ st refl written errors) refl in
      let first : first_member g.remotes ≡ some m = ap first_member remotes in
      let waited' : wait get_obj a s.events ctx₂ ≡ some (success, ms, ctx₃) =
        ap (λ (es : List Message). wait get_obj a es ctx₂) events ∙ waited in
      (
        close_request a (record ctx₃ { comm_reqs = erase (suc a) ctx₃.comm_reqs }),
        rw
            (
              first,
              grp_comm-known tid current g c (open_request s.status s.ctx).1 known,
              insert_req-inserted dist_get a r ctx₁ (lookup-insert_self a r _),
              on,
              waited',
              at₃,
            )
            refl,
      )
