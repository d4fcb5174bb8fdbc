-- ===== src/Router/Clients/Sent.antt =====
-- Every object of a communicator gets its own event.
use pwrapi.Prelude.{
  ℕ, suc, ◌≡◌, ◌≢◌, ◌⊎◌, inl, inr, refl, sym, ap, ◌∙◌, none, some, false, List, [], ◌∷◌, ◌++◌,
  append-nil, append_assoc, ◌+◌, map, length, length-append, All, ◌==◌, ==_iff, ==_self, arith,
}
use pwrapi.Prelude.Map.{nat_eq, lookup, insert, lookup-insert}
use pwrapi.Events.{Text, CommCreateEvent, comm_create, code}
use pwrapi.Events.Requests.{CommReqEvent}
use pwrapi.Events.Message.{Message, create, req}
use pwrapi.Router.Ids.{rtr_id, server_id, no_id}
use pwrapi.Router.Table.{find_route}
use pwrapi.Router.Collect.{new_info}
use pwrapi.Router.Collect.Pending.{total_size}
use pwrapi.Router.Send.{State, Request, comm, new_comm, find_rtr_chan, send_obj}
use pwrapi.Router.Send.Carried.{carried}
use pwrapi.Router.Send.Pending.{map-append}
use pwrapi.Router.Send.Routes.{send_app-link, send_app-server}
use pwrapi.Router.Clients.{
  Clients, Client, Target, send_each, add_comm, fresh_comm, create_one, target_of, create_targets,
  process_create, req_targets, process_req,
}

-- An object has a route, to a connected server of this router or over a link to another, on the
-- channel that `chan` has for it.
pub record Reached (st : State) (chan : Text → ℕ) (obj : Text) : Type 0 where
  pub real : find_route st.routes obj ≢ no_id
  pub way :
      ((rtr_id (find_route st.routes obj) ≢ st.id)
        × (find_rtr_chan (rtr_id (find_route st.routes obj)) st ≡ some (chan obj)))
      ⊎ ((rtr_id (find_route st.routes obj) ≡ st.id)
          × (server_id (find_route st.routes obj) ≢ no_id)
          × (lookup (server_id (find_route st.routes obj)) st.local_map ≡ some (some (chan obj))))

-- An event to an object, as it goes out.
abbrev pub delivery : State → (Text → ℕ) → Text → Message → ℕ × Message
delivery st chan obj m = (chan obj, carried st.id (find_route st.routes obj) m)

abbrev pub out_of : State → (Text → ℕ) → Target → ℕ × Message
out_of st chan t = delivery st chan t.obj t.event

-- Only `sent` and `requests` change while the events go out.
abbrev changed : State → List (ℕ × Message) → List (ℕ × Request) → State
changed st sent requests = record st { sent = sent; requests = requests }

module _ (fp_add : ℕ → ℕ → ℕ) (st : State) (q : List (ℕ × Request)) (chan : Text → ℕ) where
  send_obj-Reached :
      (t : Target) (sent : List (ℕ × Message))
      → Reached st chan t.obj
      → send_obj fp_add t.obj t.event (changed st sent q)
        ≡ some (changed st (sent ++ out_of st chan t ∷ []) q)
  unfolding send_obj find_rtr_chan
  send_obj-Reached t sent r =
      let e : (no_id == find_route st.routes t.obj) ≡ false =
        ground (arith, r.real, ==_iff no_id (find_route st.routes t.obj)) in
      rw (e) (elim r.way [
        | inl w ↦ send_app-link fp_add _ (chan t.obj) t.event (changed st sent q) w.0 w.1
        | inr w ↦ send_app-server fp_add _ (chan t.obj) t.event (changed st sent q) w.0 w.1 w.2
      ])

  pub send_each-Reached :
      (ts : List Target) (sent : List (ℕ × Message))
      → All (λ t. Reached st chan t.obj) ts
      → send_each fp_add ts (changed st sent q)
        ≡ some (changed st (sent ++ map (out_of st chan) ts) q)
  unfolding send_each
  send_each-Reached [] sent h = ap (λ s. some (changed st s q)) (sym (append-nil sent))
  send_each-Reached (t ∷ ts) sent (r, h) = rw (send_obj-Reached t sent r) (
      send_each-Reached ts (sent ++ out_of st chan t ∷ []) h
      ∙ ap (λ s. some (changed st s q))
          (append_assoc sent (out_of st chan t ∷ []) (map (out_of st chan) ts)))

-- Each object with the number of its group, in order, from a number on.
unfoldable pub numbered : ℕ → List (List Text) → List (ℕ × Text)
numbered i [] = []
numbered i (objs ∷ groups) = map (λ obj. (i, obj)) objs ++ numbered (i + 1) groups

All-append {ℓ κ} :
    {A : Type ℓ} (P : A → Type κ) (xs ys : List A) → All P xs → All P ys → All P (xs ++ ys)
All-append P [] ys h k = k
All-append P (x ∷ xs) ys (p, h) k = (p, All-append P xs ys h k)

-- The targets of one group, of which each is for its object.
All-targets :
    (P : Text → Type 0) (f : Text → Target) (objs : List Text)
    → ((obj : Text) → (f obj).obj ≡ obj)
    → All P objs
    → All (λ t. P t.obj) (map f objs)
All-targets P f [] same h = tt
All-targets P f (obj ∷ objs) same (p, h) = (rw (same obj) p, All-targets P f objs same h)

map-map {ℓ} :
    {A B C D : Type ℓ} (f : B → D) (g : A → B) (f' : C → D) (g' : A → C) (xs : List A)
    → ((x : A) → f (g x) ≡ f' (g' x))
    → map f (map g xs) ≡ map f' (map g' xs)
map-map f g f' g' [] same = refl
map-map f g f' g' (x ∷ xs) same = rw (same x, map-map f g f' g' xs same) refl

length-map {ℓ} : {A B : Type ℓ} (f : A → B) (xs : List A) → length (map f xs) ≡ length xs
length-map f [] = refl
length-map f (x ∷ xs) = ap suc (length-map f xs)

length-numbered :
    (i : ℕ) (groups : List (List Text))
    → length (numbered i groups) ≡ total_size (map length groups)
unfolding numbered total_size
length-numbered i [] = refl
length-numbered i (objs ∷ groups) =
    length-append (map (λ obj. (i, obj)) objs) (numbered (i + 1) groups)
    ∙ omega
        (arith, length-map {B = ℕ × Text} (λ obj. (i, obj)) objs, length-numbered (i + 1) groups)

-- The request to an object of a group: the client's, with the id and the number of the group.
abbrev pub asking : ℕ → CommReqEvent → ℕ → Message
asking id ev group = req (record {
  comm = record {
    event = record { type = ev.comm.event.type; id = id; status = ev.comm.event.status };
    comm_id = ev.comm.comm_id;
    op = ev.comm.op;
  };
  grp_index = group;
  attr_name = ev.attr_name;
  set_values = ev.set_values;
  value_op = ev.value_op;
})

-- The creation of a communicator of one object.
abbrev pub creating : ℕ → Text → Message
creating id obj = create (record {
  comm = record {
    event = record { type = code comm_create; id = 0; status = 0 };
    comm_id = id;
    op = 0;
  };
  members = (obj ∷ []) ∷ [];
})

module _ (st : State) (chan : Text → ℕ) where
  abbrev pub ask_out : ℕ → CommReqEvent → ℕ × Text → ℕ × Message
  ask_out id ev (group, obj) = delivery st chan obj (asking id ev group)

  abbrev pub create_out : ℕ → ℕ × Text → ℕ × Message
  create_out id (group, obj) = delivery st chan obj (creating id obj)

  out-req_targets :
      (id i : ℕ) (ev : CommReqEvent) (groups : List (List Text))
      → map (out_of st chan) (req_targets id i ev groups) ≡ map (ask_out id ev) (numbered i groups)
  unfolding req_targets numbered target_of
  out-req_targets id i ev [] = refl
  out-req_targets id i ev (objs ∷ groups) =
      map-append (out_of st chan) (map (target_of id i ev) objs) (req_targets id (i + 1) ev groups)
      ∙ rw
          (
            out-req_targets id (i + 1) ev groups,
            map-map (out_of st chan) (target_of id i ev) (ask_out id ev) (λ obj. (i, obj)) objs
                (λ obj. refl),
          )
          (sym (map-append (ask_out id ev) (map (λ obj. (i, obj)) objs) (numbered (i + 1) groups)))

  out-create_targets :
      (id i : ℕ) (groups : List (List Text))
      → map (out_of st chan) (create_targets id groups) ≡ map (create_out id) (numbered i groups)
  unfolding create_targets numbered create_one new_comm
  out-create_targets id i [] = refl
  out-create_targets id i (objs ∷ groups) =
      map-append (out_of st chan)
        (map (λ obj. record { obj = obj; event = create_one id obj }) objs)
        (create_targets id groups)
      ∙ rw
          (
            out-create_targets id (i + 1) groups,
            map-map (out_of st chan) (λ obj. record { obj = obj; event = create_one id obj })
                (create_out id) (λ obj. (i, obj)) objs (λ obj. refl),
          )
          (sym (map-append (create_out id) (map (λ obj. (i, obj)) objs) (numbered (i + 1) groups)))

  Reached-req_targets :
      (id i : ℕ) (ev : CommReqEvent) (groups : List (List Text))
      → All (All (Reached st chan)) groups
      → All (λ t. Reached st chan t.obj) (req_targets id i ev groups)
  unfolding req_targets target_of
  Reached-req_targets id i ev [] h = tt
  Reached-req_targets id i ev (objs ∷ groups) (k, h) =
      All-append (λ t. Reached st chan t.obj) (map (target_of id i ev) objs)
        (req_targets id (i + 1) ev groups)
        (All-targets (Reached st chan) (target_of id i ev) objs (λ obj. refl) k)
        (Reached-req_targets id (i + 1) ev groups h)

  Reached-create_targets :
      (id : ℕ) (groups : List (List Text))
      → All (All (Reached st chan)) groups
      → All (λ t. Reached st chan t.obj) (create_targets id groups)
  unfolding create_targets
  Reached-create_targets id [] h = tt
  Reached-create_targets id (objs ∷ groups) (k, h) =
      All-append (λ t. Reached st chan t.obj) _ (create_targets id groups)
        (All-targets (Reached st chan) (λ obj. record { obj = obj; event = create_one id obj }) objs
          (λ obj. refl) k)
        (Reached-create_targets id groups h)

-- A request of a client for a communicator that it has made, whose objects can all be reached: the
-- client's request goes out to each object of each group, in order, with the number of its group
-- and the id of the collection that awaits the responses, of which there are as many as objects.
pub process_req-sent :
    (fp_add : ℕ → ℕ → ℕ) (ec : ℕ) (ev : CommReqEvent) (r : Clients) (client : Client)
    (creation : CommCreateEvent) (chan : Text → ℕ)
    → lookup ec r.clients ≡ some client
    → lookup ev.comm.comm_id client ≡ some creation
    → All (All (Reached r.state chan)) creation.members
    → (r' : Clients) × (process_req fp_add ec ev r ≡ some r')
      × (r'.state.sent
          ≡ r.state.sent ++ map (ask_out r.state chan r.next_info ev) (numbered 0 creation.members))
      × (lookup r.next_info r'.state.requests
          ≡ some (comm (new_info ec ev (map length creation.members))))
      × (length (numbered 0 creation.members) ≡ total_size (map length creation.members))
unfolding process_req
process_req-sent fp_add ec ev r client creation chan has_client has_comm h =
    let info : Request = comm (new_info ec ev (map length creation.members)) in
    let q : List (ℕ × Request) = insert r.next_info info r.state.requests in
    let ts : List Target = req_targets r.next_info 0 ev creation.members in
    let out : List (ℕ × Message) = map (out_of r.state chan) ts in
    (
      record r { state = changed r.state (r.state.sent ++ out) q; next_info = suc r.next_info },
      rw
          (
            has_client,
            has_comm,
            send_each-Reached fp_add r.state q chan ts r.state.sent
                (Reached-req_targets r.state chan r.next_info 0 ev creation.members h),
          )
          refl,
      ap (◌++◌ r.state.sent) (out-req_targets r.state chan r.next_info 0 ev creation.members),
      lookup-insert r.next_info r.next_info info r.state.requests ∙ rw (==_self r.next_info) refl,
      length-numbered 0 creation.members,
    )

-- The creation of a communicator that the client has not, whose objects can all be reached: each
-- object of each group is sent, in order, a creation of its own, of that object and with the
-- communicator's identity, and the communicator is kept for the client.
pub process_create-sent :
    (fp_add : ℕ → ℕ → ℕ) (ec : ℕ) (ev : CommCreateEvent) (r : Clients) (client : Client)
    (chan : Text → ℕ)
    → lookup ec r.clients ≡ some client
    → lookup ev.comm.comm_id client ≡ none
    → All (All (Reached r.state chan)) ev.members
    → (r' : Clients) × (process_create fp_add ec ev r ≡ some r')
      × (r'.state.sent
          ≡ r.state.sent ++ map (create_out r.state chan ev.comm.comm_id) (numbered 0 ev.members))
      × (lookup ec r'.clients ≡ some (insert ev.comm.comm_id ev client))
unfolding process_create add_comm fresh_comm
process_create-sent fp_add ec ev r client chan has_client new h =
    let ts : List Target = create_targets ev.comm.comm_id ev.members in
    let out : List (ℕ × Message) = map (out_of r.state chan) ts in
    (
      record r {
        clients = insert ec (insert ev.comm.comm_id ev client) r.clients;
        state = changed r.state (r.state.sent ++ out) r.state.requests;
      },
      rw
          (
            has_client,
            new,
            send_each-Reached fp_add r.state r.state.requests chan ts r.state.sent
                (Reached-create_targets r.state chan ev.comm.comm_id ev.members h),
          )
          refl,
      ap (◌++◌ r.state.sent) (out-create_targets r.state chan ev.comm.comm_id 0 ev.members),
      lookup-insert ec ec (insert ev.comm.comm_id ev client) r.clients ∙ rw (==_self ec) refl,
    )
