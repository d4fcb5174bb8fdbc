-- ===== src/Router/Send/Routes.antt =====
-- Where an event for an object goes.
use pwrapi.Prelude.{
  ℕ, ◌≡◌, ◌≢◌, refl, sym, none, some, true, false, [], ◌∷◌, ◌++◌, ◌==◌, ==_iff, arith,
}
use pwrapi.Prelude.Map.{nat_eq, text_eq, lookup, lookup-erase}
use pwrapi.Events.{Text}
use pwrapi.Events.Message.{Message}
use pwrapi.Router.Ids.{rtr_id, server_id, no_id, no_app}
use pwrapi.Router.Table.{find_route}
use pwrapi.Router.Send.Carried.{carried, send_found-put, send_found-away}
use pwrapi.Router.Send.{
  State, emit, local_chan, find_server_chan, find_rtr_chan, put, send_app, send_obj, del_server,
  del_named, del_server_chan,
}

module _ (fp_add : ℕ → ℕ → ℕ) where
  -- An event for another router takes the link to it, and changes nothing else.
  pub send_app-link :
      (dest c : ℕ) (m : Message) (st : State)
      → rtr_id dest ≢ st.id
      → find_rtr_chan (rtr_id dest) st ≡ some c
      → send_app fp_add dest m st
        ≡ some (record st { sent = st.sent ++ (c, carried st.id dest m) ∷ [] })
  unfolding send_app put emit
  send_app-link dest c m st other link =
      let e : (rtr_id dest == st.id) ≡ false = ground (arith, other, ==_iff (rtr_id dest) st.id) in
      rw (e, link, send_found-away fp_add (some c) dest m st e) refl

  -- An event for a server of this router that is connected goes to its channel, and changes nothing
  -- else.
  pub send_app-server :
      (dest c : ℕ) (m : Message) (st : State)
      → rtr_id dest ≡ st.id
      → server_id dest ≢ no_id
      → lookup (server_id dest) st.local_map ≡ some (some c)
      → send_app fp_add dest m st
        ≡ some (record st { sent = st.sent ++ (c, carried st.id dest m) ∷ [] })
  unfolding send_app find_server_chan local_chan put emit
  send_app-server dest c m st here is_server known =
      let e : (rtr_id dest == st.id) ≡ true = (==_iff (rtr_id dest) st.id).1 here in
      let f : (no_id == server_id dest) ≡ false =
        ground (arith, is_server, ==_iff no_id (server_id dest)) in
      let g : (server_id dest == no_id) ≡ false =
        ground (arith, is_server, ==_iff (server_id dest) no_id) in
      rw (e, f, known, send_found-put fp_add (some c) dest m st g) refl

  -- On a router that is not itself number 0xffffffff, an event for an object that has no route is not
  -- dropped: it takes the link to the router 0xffffffff, if there is one.
  pub send_obj-unknown :
      (obj : Text) (c : ℕ) (m : Message) (st : State)
      → lookup obj st.routes ≡ none
      → st.id ≢ no_id
      → find_rtr_chan no_id st ≡ some c
      → send_obj fp_add obj m st
        ≡ some (record st { sent = st.sent ++ (c, carried st.id no_app m) ∷ [] })
  unfolding send_obj find_route rtr_id
  send_obj-unknown obj c m st unknown id link =
      rw (unknown) (send_app-link no_app c m st (λ e. id (sym e)) link)

-- After the channel of a server is deleted, the channel of every server but number 0 is found as
-- before, that of the deleted server too.
pub find_server_chan-del_server_chan :
    (st : State) (name : Text) (ec c k : ℕ)
    → lookup ec st.server_map ≡ some name
    → lookup k st.local_map ≡ some (some c)
    → k ≢ 0
    → k ≢ no_id
    → (find_server_chan k (del_server_chan ec st)).0 ≡ some c
unfolding find_server_chan local_chan del_server_chan del_named del_server
find_server_chan-del_server_chan st name ec c k chan known zero is_server =
    let f : (no_id == k) ≡ false = ground (arith, is_server, ==_iff no_id k) in
    let g : (0 == k) ≡ false = ground (arith, zero, ==_iff 0 k) in
    rw (f, chan, lookup-erase 0 k st.local_map, g, known) refl
